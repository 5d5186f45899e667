-- ===== src/Blocklist/Matcher/Blocked.antt =====
-- `matcher.blocked` on the sets that a reload builds.
use homedns.Prelude.{
  ◌≡◌, ◌≢◌, refl, sym, ◌∙◌, ◌↔◌, inl, inr, true, false, List, [], ◌∷◌, Option, some, Bytes, arith,
  if◌then◌else◌,
}
use homedns.Blocklist.Matcher.{NameSet, Matcher, covers, new_name_set, blocked}
use homedns.Blocklist.Matcher.Covers.{IsCovered, append-ne-nil}
use homedns.Blocklist.Matcher.Build.Prune.{covers-new_name_set}

-- The snapshot that a reload publishes for merged lists and the `allow` entries.
abbrev pub snapshot : List Bytes → List Bytes → Option Matcher
snapshot merged allow = some (record { block = new_name_set merged; allow = new_name_set allow })

IsCovered-ne-nil : {names : List Bytes} {q : Bytes} → IsCovered names q → q ≢ []
IsCovered-ne-nil (d, m, ne, inl e) h = ne (sym e ∙ h)
IsCovered-ne-nil (d, m, ne, inr (p, e)) h = append-ne-nil p d (sym e ∙ h)

blocked-eq :
    (s t : NameSet) (x : Bytes)
    → x ≢ []
    → blocked (some (record { block = s; allow = t })) x
      ≡ (if covers t x then false else covers s x)
unfolding blocked
blocked-eq s t [] ne = absurd (ne refl)
blocked-eq s t (c ∷ x) ne = refl

blocked-ne-nil :
    (s t : NameSet) (x : Bytes) → blocked (some (record { block = s; allow = t })) x ≡ true → x ≢ []
unfolding blocked
blocked-ne-nil s t [] h e = cc
blocked-ne-nil s t (c ∷ x) h e = cc

-- A name is blocked exactly if a list names it or a domain above it, and no `allow` entry does.
pub blocked_iff :
    (merged allow : List Bytes) (q : Bytes)
    → (blocked (snapshot merged allow) q ≡ true) ↔ (IsCovered merged q × ¬ IsCovered allow q)
blocked_iff merged allow q =
    let listed = covers-new_name_set merged q in
    let allowed = covers-new_name_set allow q in
    (
      λ h.
          let e =
            blocked-eq (new_name_set merged) (new_name_set allow) q (blocked-ne-nil _ _ q h) in
          (listed.0 (ground (arith, e)), λ c. ground (arith, e, allowed.1 c)),
      λ (c, n). rw (blocked-eq (new_name_set merged) (new_name_set allow) q (IsCovered-ne-nil c)) (
          ground
            (arith, listed.1 c, λ (h : covers (new_name_set allow) q ≡ true). n (allowed.0 h))),
    )
