-- ===== src/Blocklist/Parse.antt =====
-- plugin/blocklist/parse.go: reading a list in /etc/hosts or bare-domain format.
use homedns.Prelude.{
  ℕ, zero, suc, ◌+◌, ◌*◌, Bool, true, false, not, ◌&&◌, ◌||◌, List, [], ◌∷◌, ◌++◌, Option, none,
  some, Bytes, codes, length, take, is_empty, str_eq, index_byte, ltb, leb, ◌==◌, if◌then◌else◌,
}
use homedns.Prelude.Text.{
  StdLib, to_lower, trim_space, fields, trim_suffix, trim_prefix, lines_loop, drop_cr,
}
pub mod Domain
pub mod Entry
pub mod Output

abbrev pub local_names : List Bytes
local_names =
    codes "localhost"
    ∷ codes "localhost.localdomain"
    ∷ codes "local"
    ∷ codes "broadcasthost"
    ∷ codes "ip6-localhost"
    ∷ codes "ip6-loopback"
    ∷ codes "ip6-localnet"
    ∷ codes "ip6-mcastprefix"
    ∷ codes "ip6-allnodes"
    ∷ codes "ip6-allrouters"
    ∷ codes "ip6-allhosts"
    ∷ []

-- strings.Contains for a single byte.
unfoldable pub contains_byte : Bytes → ℕ → Bool
contains_byte s c = elim (index_byte s c) [ none ↦ false | some _ ↦ true ]

-- A lookup in a map with no values.
unfoldable pub contains : List Bytes → Bytes → Bool
contains [] s = false
contains (n ∷ names) s = if str_eq n s then true else contains names s

-- The bytes of a label: `a` to `z`, `0` to `9`, `-` and `_`.
unfoldable pub is_label_byte : ℕ → Bool
is_label_byte c = (leb b'a' c && leb c b'z') || (leb b'0' c && leb c b'9') || c == b'-' || c == b'_'

-- The loop of `isDomainName`; `label_len` counts the bytes since the last dot.
unfoldable pub domain_loop : ℕ → Bytes → Bool
unfolding is_label_byte
domain_loop label_len [] = ltb 0 label_len
domain_loop label_len (c ∷ s) = elim (c == b'.') [
  | true ↦ elim (label_len == 0) [ true ↦ false | false ↦ domain_loop 0 s ]
  | false ↦ elim (is_label_byte c) [
    | false ↦ false
    | true ↦ elim (ltb 63 (suc label_len)) [ true ↦ false | false ↦ domain_loop (suc label_len) s ]
  ]
]

unfoldable pub is_domain_name : Bytes → Bool
unfolding domain_loop
is_domain_name s = if ltb 253 (length s) then false else domain_loop 0 s

unfoldable pub strip_zone : Bytes → Bytes
strip_zone s = elim (index_byte s b'%') [ none ↦ s | some i ↦ take i s ]

module _ (std : StdLib) where
  unfoldable pub is_ip : Bytes → Bool
  is_ip s = std.is_addr (strip_zone s)

  -- The four assignments at the head of `normalizeEntry`.
  unfoldable pub canonical : Bytes → Bytes
  canonical s =
      let lowered = to_lower std (trim_space std s) in
      trim_prefix (trim_prefix (trim_suffix lowered (codes ".")) (codes "*.")) (codes ".")

  -- `none` is the result `"", false`.
  unfoldable pub normalize_entry : Bytes → Option Bytes
  normalize_entry s =
      let name = canonical s in
      if is_empty name || is_ip name || not (contains_byte name b'.') || not (is_domain_name name)
      then none
      else if contains local_names name
      then none
      else some name

  unfoldable pub strip_comment : Bytes → Bytes
  strip_comment line = elim (index_byte line b'#') [ none ↦ line | some i ↦ take i line ]

  -- The `switch` over the fields of a line; `[]` is the `continue`.
  unfoldable pub candidates : List Bytes → List Bytes
  candidates [] = []
  candidates (only ∷ []) = only ∷ []
  candidates (first ∷ second ∷ rest) = if is_ip first then second ∷ rest else []

  -- The loop over the candidates of a line.
  unfoldable pub append_entries : List Bytes → List Bytes → List Bytes
  append_entries out [] = out
  append_entries out (c ∷ cs) =
      append_entries (elim (normalize_entry c) [ none ↦ out | some name ↦ out ++ name ∷ [] ]) cs

  unfoldable pub parse_line : List Bytes → Bytes → List Bytes
  parse_line out raw =
      let line = trim_space std (strip_comment raw) in
      if is_empty line then out else append_entries out (candidates (fields std line))

  -- The loop of `sc.Scan()`. A line that does not fit the buffer ends it with bufio.ErrTooLong,
  -- which is `none`.
  unfoldable pub parse_lines : ℕ → List Bytes → List Bytes → Option (List Bytes)
  parse_lines limit out [] = some out
  parse_lines limit out (raw ∷ raws) =
      let rest = parse_lines limit (parse_line out (drop_cr raw)) raws in
      if leb limit (length raw) then none else rest

-- What an io.Reader delivers: its bytes, and whether it then fails with an error other than io.EOF.
pub record Body : Type 0 where
  pub content : Bytes
  pub broken : Bool

-- The size that `sc.Buffer` allows: a line and its newline must fit.
abbrev pub max_token : ℕ
max_token = 1024 * 1024

unfoldable pub parse_list : StdLib → Body → Option (List Bytes)
parse_list std r = if r.broken then none else parse_lines std max_token [] (lines_loop [] r.content)
