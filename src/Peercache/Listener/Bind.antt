-- ===== src/Peercache/Listener/Bind.antt =====
-- `bind` of plugin/peercache/listener.go: in which attempt the listener gets its port.
use homedns.Prelude.{
  ℕ, zero, suc, ◌+◌, ◌-◌, ◌≤◌, ◌<◌, ◌≡◌, refl, ap, subst, ◌∙◌, ◌↔◌, inl, inr, Bool, true, false,
  ◌==◌, arith, Bool-cases, ==_iff,
}
use homedns.Peercache.Listener.{socket, bind_loop, bind, bind_attempts}

bind_loop-socket :
    (free ends : ℕ → Bool) (rounds i k : ℕ)
    → i + rounds ≡ bind_attempts
    → bind_loop rounds free ends i ≡ socket k
    → (i ≤ k)
      × (k < bind_attempts)
      × (free k ≡ true)
      × ((j : ℕ) → i ≤ j → j < k → (free j ≡ false) × (ends j ≡ false))
unfolding bind_loop
bind_loop-socket free ends zero i k all h = ground arith
bind_loop-socket free ends (suc rounds) i k all h = elim (Bool-cases (free i)) [
  | inl found ↦ here found (ground arith)
  | inr taken ↦ elim (Bool-cases (i == bind_attempts - 1)) [
    | inl last ↦ ground arith
    | inr more ↦ elim (Bool-cases (ends i)) [
      | inl ended ↦ ground arith
      | inr waits ↦
          let (le, lt, found, first) =
            bind_loop-socket free ends rounds (suc i) k (omega arith) (ground arith) in
          (omega arith, lt, found, λ j from to. before taken waits first j from to)
    ]
  ]
]
  where
    here :
        free i ≡ true
        → i ≡ k
        → (i ≤ k)
          × (k < bind_attempts)
          × (free k ≡ true)
          × ((j : ℕ) → i ≤ j → j < k → (free j ≡ false) × (ends j ≡ false))
    here found same = (
      omega arith,
      omega arith,
      subst (λ n. free n ≡ true) same found,
      λ j from to. absurd (omega arith),
    )

    before :
        free i ≡ false
        → ends i ≡ false
        → ((j : ℕ) → suc i ≤ j → j < k → (free j ≡ false) × (ends j ≡ false))
        → (j : ℕ) → i ≤ j
        → j < k
        → (free j ≡ false) × (ends j ≡ false)
    before taken waits first j from to = elim (Bool-cases (i == j)) [
      | inl same ↦
          subst (λ n. (free n ≡ false) × (ends n ≡ false)) ((==_iff _ _).0 same) (taken, waits)
      | inr other ↦ first j (ground arith) to
    ]

bind_loop-free :
    (free ends : ℕ → Bool) (rounds i k : ℕ)
    → i + rounds ≡ bind_attempts
    → i ≤ k
    → k < bind_attempts
    → free k ≡ true
    → ((j : ℕ) → i ≤ j → j < k → (free j ≡ false) × (ends j ≡ false))
    → bind_loop rounds free ends i ≡ socket k
unfolding bind_loop
bind_loop-free free ends zero i k all le lt found first = absurd (omega arith)
bind_loop-free free ends (suc rounds) i k all le lt found first = elim (Bool-cases (i == k)) [
  | inl same ↦ let e : i ≡ k = (==_iff _ _).0 same in rw (ap free e ∙ found) (ap socket e)
  | inr other ↦
      let less : i < k = ground arith in
      let (taken, waits) = first i (omega arith) less in
      let more : (i == bind_attempts - 1) ≡ false = ground arith in
      rw taken (
        rw more (
          rw waits (
            bind_loop-free free ends rounds (suc i) k (omega arith) (omega arith) lt found
              (λ j from to. first j (omega arith) to))))
]

-- `bind` gets its socket in an attempt exactly if it is one of the twenty, and the first at which
-- the address is free, and the context did not end in the delays before it.
pub bind_iff :
    (free ends : ℕ → Bool) (k : ℕ)
    → (bind free ends ≡ socket k) ↔ (
        (k < bind_attempts)
        × (free k ≡ true)
        × ((j : ℕ) → j < k → (free j ≡ false) × (ends j ≡ false)))
unfolding bind
bind_iff free ends k = (
  λ h.
      let (le, lt, found, first) = bind_loop-socket free ends bind_attempts 0 k refl h in
      (lt, found, λ j to. first j (omega arith) to),
  λ (lt, found, first).
      bind_loop-free free ends bind_attempts 0 k refl (omega arith) lt found
        (λ j from to. first j to),
)
