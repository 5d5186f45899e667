-- ===== src/Blocklist/Parse/Output.antt =====
-- What `parseList` returns, and when it fails.
use homedns.Prelude.{
  ℕ, ◌≤◌, ◌≡◌, refl, ◌↔◌, inl, inr, subst, ap, ◌⊎◌, true, false, List, [], ◌∷◌, ◌++◌, none, some,
  Memᴰ, Bytes, All, All-append, arith, length, leb, Bool-cases, Option-cases, is_empty,
}
use mathlib.Core.Option.{some-injective}
use homedns.Prelude.Text.{StdLib, trim_space, fields, lines_loop, drop_cr}
use homedns.Blocklist.Parse.{
  normalize_entry, strip_comment, candidates, append_entries, parse_line, parse_lines, Body,
  max_token, parse_list,
}
use homedns.Blocklist.Parse.Entry.{IsBlockable, normalize_entry-IsBlockable}

module _ (std : StdLib) where
  append_entries-IsBlockable :
      (out cs : List Bytes)
      → All (IsBlockable std) out
      → All (IsBlockable std) (append_entries std out cs)
  unfolding append_entries
  append_entries-IsBlockable out [] h = h
  append_entries-IsBlockable out (c ∷ cs) h = elim (Option-cases (normalize_entry std c)) [
    | inl e ↦ rw e (append_entries-IsBlockable out cs h)
    | inr (name, e) ↦ rw e (
        append_entries-IsBlockable (out ++ name ∷ []) cs (
          All-append (IsBlockable std) out (name ∷ []) h (normalize_entry-IsBlockable std c e, tt)))
  ]

  parse_line-IsBlockable :
      (out : List Bytes) (raw : Bytes)
      → All (IsBlockable std) out
      → All (IsBlockable std) (parse_line std out raw)
  unfolding parse_line
  parse_line-IsBlockable out raw h =
      elim (Bool-cases (is_empty (trim_space std (strip_comment std raw)))) [
        | inl empty ↦ rw empty h
        | inr full ↦ rw full (
            append_entries-IsBlockable out
              (candidates std (fields std (trim_space std (strip_comment std raw)))) h)
      ]

  parse_lines-IsBlockable :
      (limit : ℕ) (out raws : List Bytes) {names : List Bytes}
      → All (IsBlockable std) out
      → parse_lines std limit out raws ≡ some names
      → All (IsBlockable std) names
  unfolding parse_lines
  parse_lines-IsBlockable limit out [] {names} h e =
      subst (All (IsBlockable std)) (some-injective out names e) h
  parse_lines-IsBlockable limit out (raw ∷ raws) h e = elim (Bool-cases (leb limit (length raw))) [
    | inl long ↦ ground arith
    | inr fits ↦
        parse_lines-IsBlockable limit (parse_line std out (drop_cr raw)) raws
          (parse_line-IsBlockable out (drop_cr raw) h) (rw fits at e)
  ]

  -- Every name that a list yields is a blockable domain in normal form.
  pub parse_list-IsBlockable :
      (r : Body) {names : List Bytes} → parse_list std r ≡ some names → All (IsBlockable std) names
  unfolding parse_list
  parse_list-IsBlockable r e = elim (Bool-cases r.broken) [
    | inl broken ↦ ground arith
    | inr whole ↦ parse_lines-IsBlockable max_token [] (lines_loop [] r.content) tt (rw whole at e)
  ]

  parse_lines-none_iff :
      (limit : ℕ) (out raws : List Bytes)
      → (parse_lines std limit out raws ≡ none)
        ↔ ((raw : Bytes) × Memᴰ raw raws × (limit ≤ length raw))
  unfolding parse_lines
  parse_lines-none_iff limit out [] = (λ e. cc, λ (raw, m, le). elim m [ ])
  parse_lines-none_iff limit out (raw ∷ raws) = elim (Bool-cases (leb limit (length raw))) [
    | inl long ↦ (λ e. (raw, Memᴰ.head refl, ground arith), λ h. rw long refl)
    | inr fits ↦
        let ih = parse_lines-none_iff limit (parse_line std out (drop_cr raw)) raws in
        (
          λ e. let (l, m, le) = ih.0 (rw fits at e) in (l, Memᴰ.tail m, le),
          λ (l, m, le). rw fits (ih.1 (longer raw raws fits l m le)),
        )
  ]
    where
      longer :
          (raw : Bytes) (raws : List Bytes)
          → leb limit (length raw) ≡ false
          → (l : Bytes) → Memᴰ l (raw ∷ raws)
          → limit ≤ length l
          → (l : Bytes) × Memᴰ l raws × (limit ≤ length l)
      longer raw raws fits l (Memᴰ.head e) le = absurd (ground (arith, ap length e))
      longer raw raws fits l (Memᴰ.tail m) le = (l, m, le)

  -- Parsing fails exactly if the reader fails or a line does not fit the scanner's buffer.
  pub parse_list-none_iff :
      (r : Body)
      → (parse_list std r ≡ none) ↔ (
          (r.broken ≡ true)
          ⊎ ((raw : Bytes) × Memᴰ raw (lines_loop [] r.content) × (max_token ≤ length raw)))
  unfolding parse_list
  parse_list-none_iff r = elim (Bool-cases r.broken) [
    | inl broken ↦ (λ e. inl broken, λ h. rw broken refl)
    | inr whole ↦
        let ih = parse_lines-none_iff max_token [] (lines_loop [] r.content) in
        (λ e. inr (ih.0 (rw whole at e)), elim [ inl broken ↦ cc | inr h ↦ rw whole (ih.1 h) ])
  ]
