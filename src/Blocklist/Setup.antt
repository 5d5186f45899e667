-- ===== src/Blocklist/Setup.antt =====
-- plugin/blocklist/setup.go: the configuration of the plugin from the Corefile.
use homedns.Prelude.{
  ℕ, zero, suc, ◌*◌, ◌||◌, Bool, true, false, not, List, [], ◌∷◌, ◌++◌, Option, none, some, Bytes,
  codes, length, is_empty, str_eq, ltb, if◌then◌else◌, Result, ok, err, ◌>>=◌, ◌>>◌, ℤ, is_port,
  positive,
}
use homedns.Prelude.Text.{StdLib}
use homedns.Corefile.{Line, Occurrence, lines_of, TextLib}
use homedns.Blocklist.Parse.{normalize_entry}
pub mod Address
pub mod Args
pub mod Reads
pub mod Accepts
pub mod Collects
pub mod Effect

abbrev pub second : ℕ
second = 1000000000

abbrev pub minute : ℕ
minute = 60 * second

-- `defaultRefresh`, 24 hours.
abbrev pub default_refresh : ℕ
default_refresh = 24 * 60 * minute

abbrev pub default_ready_timeout : ℕ
default_ready_timeout = 60 * second

abbrev pub default_bootstrap_dns : List Bytes
default_bootstrap_dns = codes "1.1.1.1:53" ∷ codes "9.9.9.9:53" ∷ []

-- The errors, with the texts that they quote.
pub data ConfigErr : Type 0 where
  configured_twice takes_no_args arg_err no_urls : ConfigErr
  invalid_url not_http no_host not_domain : Bytes → ConfigErr
  not_ip_port not_ip invalid_port : Bytes → ConfigErr
  not_duration : Bytes → Bytes → ConfigErr
  not_positive : Bytes → ConfigErr
  too_short : ℕ → ConfigErr
  unknown_property : Bytes → ConfigErr

-- The fields of a Blocklist that the Corefile sets, and `bootstrap`.
pub record Settings : Type 0 where
  pub urls : List Bytes
  pub allow : List Bytes
  pub bootstrap : List Bytes
  pub refresh : ℕ
  pub ready_timeout : ℕ

abbrev pub Parsed : Type 0 → Type 0
Parsed = Result ConfigErr

abbrev pub defaults : Settings
defaults = record {
  urls = [];
  allow = [];
  bootstrap = [];
  refresh = default_refresh;
  ready_timeout = default_ready_timeout;
}

-- The checks on what url.Parse gives.
unfoldable pub check_url : Bytes → Option (Bytes × Bytes) → Parsed (Unit {0})
check_url raw none = err (invalid_url raw)
check_url raw (some (scheme, host)) =
    if not (str_eq scheme (codes "http") || str_eq scheme (codes "https"))
    then err (not_http raw)
    else if is_empty host
    then err (no_host raw)
    else ok tt

-- A number that fails to parse is no port either.
unfoldable pub valid_port : Option ℤ → Bool
valid_port none = false
valid_port (some p) = is_port p

-- The checks on the arguments of a property that takes one or more.
unfoldable pub some_args : List Bytes → Parsed (List Bytes)
some_args [] = err arg_err
some_args (raw ∷ raws) = ok (raw ∷ raws)

-- A parsed duration, which has to be positive.
unfoldable pub check_duration : Bytes → Bytes → Option ℤ → Parsed ℕ
check_duration prop raw none = err (not_duration prop raw)
check_duration prop raw (some d) = elim (positive d) [
  | none ↦ err (not_positive prop)
  | some n ↦ ok n
]

module _ (txt : TextLib) where
  unfoldable pub validate_url : Bytes → Parsed (Unit {0})
  unfolding check_url
  validate_url raw = check_url raw (txt.parse_url raw)

  -- The end of `normalizeDNSAddr`, with the host's address.
  unfoldable pub join_port : Bytes → Bytes → Option Bytes → Parsed Bytes
  unfolding valid_port
  join_port raw port none = err (not_ip raw)
  join_port raw port (some addr) =
      if valid_port (txt.atoi port)
      then ok (txt.join_host_port addr port)
      else err (invalid_port raw)

  unfoldable pub split_addr : Bytes → Option (Bytes × Bytes) → Parsed Bytes
  unfolding join_port
  split_addr raw none = err (not_ip_port raw)
  split_addr raw (some (host, port)) = join_port raw port (txt.parse_addr host)

  unfoldable pub whole_addr : Bytes → Option Bytes → Parsed Bytes
  unfolding split_addr
  whole_addr raw (some addr) = ok (txt.join_host_port addr (codes "53"))
  whole_addr raw none = split_addr raw (txt.split_host_port raw)

  unfoldable pub normalize_dns_addr : Bytes → Parsed Bytes
  unfolding whole_addr
  normalize_dns_addr raw = whole_addr raw (txt.parse_addr raw)

  unfoldable pub duration_arg : Bytes → List Bytes → Parsed ℕ
  unfolding check_duration
  duration_arg prop [] = err arg_err
  duration_arg prop (raw ∷ []) = check_duration prop raw (txt.parse_duration raw)
  duration_arg prop (raw ∷ more ∷ raws) = err arg_err

  -- The loop over the arguments of `url`.
  unfoldable pub add_urls : List Bytes → Settings → Parsed Settings
  add_urls [] s = ok s
  add_urls (raw ∷ raws) s =
      validate_url raw >> add_urls raws (record s { urls = s.urls ++ raw ∷ [] })

  -- The loop over the arguments of `bootstrap_dns`.
  unfoldable pub add_bootstrap : List Bytes → Settings → Parsed Settings
  add_bootstrap [] s = ok s
  add_bootstrap (raw ∷ raws) s = normalize_dns_addr raw >>= λ addr.
      add_bootstrap raws (record s { bootstrap = s.bootstrap ++ addr ∷ [] })

-- The loop over the arguments of `allow`.
unfoldable pub add_allow : StdLib → List Bytes → Settings → Parsed Settings
add_allow std [] s = ok s
add_allow std (raw ∷ raws) s = elim (normalize_entry std raw) [
  | none ↦ err (not_domain raw)
  | some name ↦ add_allow std raws (record s { allow = s.allow ++ name ∷ [] })
]

-- The checked period between refreshes.
unfoldable pub set_refresh : ℕ → Settings → Parsed Settings
set_refresh d s = if ltb d minute then err (too_short d) else ok (record s { refresh = d })

module _ (std : StdLib) (txt : TextLib) where
  -- The switch over the properties.
  unfoldable pub parse_property : Line → Settings → Parsed Settings
  parse_property l s =
      if str_eq l.name (codes "url")
      then (some_args l.args >>= λ raws. add_urls txt raws s)
      else if str_eq l.name (codes "allow")
      then (some_args l.args >>= λ raws. add_allow std raws s)
      else if str_eq l.name (codes "bootstrap_dns")
      then (some_args l.args >>= λ raws. add_bootstrap txt raws s)
      else if str_eq l.name (codes "refresh")
      then (duration_arg txt l.name l.args >>= λ d. set_refresh d s)
      else if str_eq l.name (codes "ready_timeout")
      then (duration_arg txt l.name l.args >>= λ d. ok (record s { ready_timeout = d }))
      else err (unknown_property l.name)

  -- The loop over `c.NextBlock`.
  unfoldable pub parse_block : List Line → Settings → Parsed Settings
  parse_block [] s = ok s
  parse_block (l ∷ ls) s = parse_property l s >>= parse_block ls

  -- The loop over `c.Next`, which knows whether it has been `configured`.
  unfoldable pub parse_loop : Bool → List Occurrence → Settings → Parsed Settings
  parse_loop configured [] s = ok s
  parse_loop true (o ∷ os) s = err configured_twice
  parse_loop false (o ∷ os) s =
      if not (is_empty o.args)
      then err takes_no_args
      else parse_block (lines_of o.block) s >>= parse_loop true os

  -- The checks behind the loop.
  unfoldable pub finish_config : Settings → Parsed Settings
  finish_config s =
      if is_empty s.urls
      then err no_urls
      else ok (if is_empty s.bootstrap then record s { bootstrap = default_bootstrap_dns } else s)

  unfoldable pub parse_config : List Occurrence → Parsed Settings
  parse_config os = parse_loop false os defaults >>= finish_config
