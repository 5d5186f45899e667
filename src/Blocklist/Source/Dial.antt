-- ===== src/Blocklist/Source/Dial.antt =====
-- The resolver's Dial tries every bootstrap server, whichever it begins with.
use homedns.Prelude.{
  ℕ, zero, suc, ◌+◌, ◌-◌, ◌%◌, ◌≤◌, ◌<◌, ◌≡◌, Bool, true, false, List, none, some, Memᴰ, Bytes,
  arith, length, get_elem?, get_elem?-mem, mem-get_elem?, get_elem?-some, get_elem?-lt, ◌==◌, ◌^◌,
  Bool-cases, Option-cases, inl, inr, leb, sym, ap, subst, ◌∙◌,
}
use native.Mathlib.Nat.{mod-eq_of_lt}
use homedns.Blocklist.Source.{dial_loop, dial}

module _ (servers : List Bytes) (reachable : Bytes → Bool) (start : ℕ) where
  dial_loop-some :
      (rounds i : ℕ) {srv : Bytes}
      → dial_loop rounds servers reachable start i ≡ some srv
      → Memᴰ srv servers × (reachable srv ≡ true)
  unfolding dial_loop
  dial_loop-some zero i h = ground arith
  dial_loop-some (suc rounds) i {srv} h =
      elim (Option-cases (get_elem? servers ((start + i) % length servers))) [
        | inl out ↦ ground arith
        | inr (s, at) ↦ elim (Bool-cases (reachable s)) [
          | inl up ↦
              let e : s ≡ srv = ground arith in
              (rw (← e) (mem-get_elem? servers ((start + i) % length servers) at), rw (← e) up)
          | inr down ↦ dial_loop-some rounds (suc i) (ground arith)
        ]
      ]

  dial_loop-none :
      (rounds i j : ℕ) {srv : Bytes}
      → dial_loop rounds servers reachable start i ≡ none
      → i ≤ j
      → j < i + rounds
      → get_elem? servers ((start + j) % length servers) ≡ some srv
      → reachable srv ≡ false
  unfolding dial_loop
  dial_loop-none zero i j h le lt at = absurd (omega arith)
  dial_loop-none (suc rounds) i j {srv} h le lt at = elim (Bool-cases (i == j)) [
    | inl now ↦
        let e : i ≡ j = ground arith in
        let at' : get_elem? servers ((start + i) % length servers) ≡ some srv =
          subst (λ t. get_elem? servers ((start + t) % length servers) ≡ some srv) (sym e) at in
        elim (Bool-cases (reachable srv)) [ inl up ↦ ground arith | inr down ↦ down ]
    | inr later ↦
        dial_loop-none rounds (suc i) j (later_rounds i rounds h (index i)) (ground arith)
          (omega arith) at
  ]
    where
      later_rounds :
          (i rounds : ℕ)
          → dial_loop (suc rounds) servers reachable start i ≡ none
          → (s : Bytes) × (get_elem? servers ((start + i) % length servers) ≡ some s)
          → dial_loop rounds servers reachable start (suc i) ≡ none
      later_rounds i rounds h (s, e) = ground arith

      index : (i : ℕ) → (s : Bytes) × (get_elem? servers ((start + i) % length servers) ≡ some s)
      index i =
          get_elem?-some servers ((start + i) % length servers)
            (omega (arith, get_elem?-lt servers ((start + j) % length servers) at))

-- Some round from any start below the number of servers reaches index `k`.
round_of : (start k n : ℕ) → start < n → k < n → (j : ℕ) × (j < n) × ((start + j) % n ≡ k)
round_of start k n h lt = elim (Bool-cases (leb start k)) [
  | inl after ↦ (k - start, ground arith, ap (λ t. t % n) (ground arith) ∙ mod-eq_of_lt lt)
  | inr before ↦ (k + n - start, ground arith, wraps (start + (k + n - start)) (ground arith))
]
  where
    wraps : (t : ℕ) → t ≡ k + n → t % n ≡ k
    wraps t e = grind (arith, mod-eq_of_lt)

-- A dial fails only if no server can be reached, and gives one that can be otherwise.
pub dial-tries_all :
    (servers : List Bytes) (reachable : Bytes → Bool) (next : ℕ)
    → ((srv : Bytes)
        → (dial servers reachable next).1 ≡ some srv
        → Memᴰ srv servers × (reachable srv ≡ true))
      × ((dial servers reachable next).1 ≡ none
          → (srv : Bytes) → Memᴰ srv servers
          → reachable srv ≡ false)
unfolding dial
dial-tries_all servers reachable next = (
  λ srv e. dial_loop-some servers reachable (start % n) n 0 e,
  λ e srv m.
      let (k, lt, at) = get_elem?-mem m in
      let (j, below, hits) = round_of (start % n) k n (omega arith) lt in
      dial_loop-none servers reachable (start % n) n 0 j e (omega arith) (omega arith)
        (subst (λ t. get_elem? servers t ≡ some srv) (sym hits) at),
)
  where
    n : ℕ
    n = length servers

    start : ℕ
    start = ((next + 1) % 2 ^ 32 + 2 ^ 32 - 1) % 2 ^ 32
