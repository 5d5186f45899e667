-- ===== src/Peercache/Discovery/Order.antt =====
-- The peer set does not depend on the order of the lister's pods.
use homedns.Prelude.{
  ℕ, ◌≡◌, refl, ap, subst, List, [], ◌∷◌, some, Bytes, Bool-cases, inl, inr, length,
}
use mathlib.Core.List.{Permᴰ}
use mathlib.Core.List.Permᴰ
use homedns.Corefile.{TextLib}
use homedns.Blocklist.Matcher.Build.Order.{sort_strings-Permᴰ}
use homedns.Peercache.Discovery.{Pod, Peers, is_skipped, addrs_of, republish}

module _ (txt : TextLib) (port : ℕ) (self : Bytes) where
  addrs_of_cons :
      (pod : Pod) (pods others : List Pod)
      → Permᴰ (addrs_of txt port self pods) (addrs_of txt port self others)
      → Permᴰ (addrs_of txt port self (pod ∷ pods)) (addrs_of txt port self (pod ∷ others))
  unfolding addrs_of
  addrs_of_cons pod pods others p = elim (Bool-cases (is_skipped self pod)) [
    | inl skip ↦ rw skip p
    | inr keep ↦ rw keep (Permᴰ.cons refl p)
  ]

  addrs_of_swap :
      (a b : Pod) (pods : List Pod)
      → Permᴰ (addrs_of txt port self (a ∷ b ∷ pods)) (addrs_of txt port self (b ∷ a ∷ pods))
  unfolding addrs_of
  addrs_of_swap a b pods = elim (Bool-cases (is_skipped self a)) [
    | inl skip ↦ rw skip (Permᴰ.refl _)
    | inr keep ↦ elim (Bool-cases (is_skipped self b)) [
      | inl skip ↦ rw keep (rw skip (Permᴰ.refl _))
      | inr both ↦ rw keep (rw both (Permᴰ.swap refl refl))
    ]
  ]

  addrs_of-Permᴰ :
      {pods others : List Pod}
      → Permᴰ pods others
      → Permᴰ (addrs_of txt port self pods) (addrs_of txt port self others)
  addrs_of-Permᴰ Permᴰ.nil = Permᴰ.refl (addrs_of txt port self [])
  addrs_of-Permᴰ (Permᴰ.cons {a} {l₁ = pods} {l₂ = others} e p) =
      subst
        (λ pod. Permᴰ (addrs_of txt port self (a ∷ pods)) (addrs_of txt port self (pod ∷ others))) e
        (addrs_of_cons a pods others (addrs_of-Permᴰ p))
  addrs_of-Permᴰ (Permᴰ.swap {a} {b} {l = pods} e f) =
      subst
        (λ (ps : List Pod).
          Permᴰ (addrs_of txt port self (a ∷ b ∷ pods)) (addrs_of txt port self ps))
        (cc (e, f)) (addrs_of_swap a b pods)
  addrs_of-Permᴰ (Permᴰ.trans p q) = Permᴰ.trans (addrs_of-Permᴰ p) (addrs_of-Permᴰ q)

  -- The lister gives its pods in no particular order: the same pods in any order make the same peer
  -- set.
  pub republish-Permᴰ :
      {pods others : List Pod} (before : Peers)
      → Permᴰ pods others
      → republish txt port self (some pods) before ≡ republish txt port self (some others) before
  unfolding republish
  republish-Permᴰ before p =
      ap (λ (addrs : List Bytes). record { listed = some addrs; total = length addrs })
        (sort_strings-Permᴰ (addrs_of-Permᴰ p))
