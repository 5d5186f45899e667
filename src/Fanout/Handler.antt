-- ===== src/Fanout/Handler.antt =====
-- A handler that reads the legs' results until it returns.
use homedns.Prelude.{
  ℕ, suc, ◌≡◌, ◌∙◌, ◌⊎◌, inl, inr, true, List, [], Option, none, some, length, Option-cases, arith,
}
use homedns.Fanout.{
  Fanout, new_fanout, weight, here, Inevitable, Inevitable-map, IsFinal, Reach-IsFinal,
}

-- `returned` is what the handler returns after the results that it has read, if it returns.
module _ {R O : Type 0} (returned : List (ℕ × R) → Option O) where
  abbrev pub IsWaiting : List (ℕ × R) → Type 0
  IsWaiting received = returned received ≡ none

  -- Every leg has sent its result, and the handler has left with the context or returned.
  pub record IsReturned (s : Fanout R) : Type 0 where
    pub all_sent : s.running ≡ []
    pub handled : (s.left ≡ true) ⊎ ((out : O) × (returned s.received ≡ some out))

  some-not_none : (o : Option O) → (out : O) → o ≡ some out → ¬ (o ≡ none)
  some-not_none o out e silent = cc

  IsFinal-IsReturned : (cap : ℕ) (s : Fanout R) → IsFinal IsWaiting cap s → IsReturned s
  IsFinal-IsReturned cap s f = record {
    all_sent = f.all_sent;
    handled = elim f.no_wait [
      | inl gone ↦ inl gone
      | inr off ↦ elim (Option-cases (returned s.received)) [
        | inl silent ↦ absurd (off silent)
        | inr out ↦ inr out
      ]
    ];
  }

  -- A handler that returns at the latest when it has read a result of each leg makes every run end.
  pub run-IsReturned :
      (cap : ℕ) (results : List R)
      → cap ≡ length results
      → ((received : List (ℕ × R))
          → length received ≡ length results
          → (out : O) × (returned received ≡ some out))
      → Inevitable IsWaiting cap IsReturned (new_fanout results)
  run-IsReturned cap results fits ends = Inevitable-map IsWaiting cap (IsFinal-IsReturned cap) (
      Reach-IsFinal IsWaiting cap fits decides
        (λ received full.
          let (out, e) = ends received (full ∙ fits) in some-not_none (returned received) out e)
        (suc (weight (new_fanout results))) (new_fanout results) here (omega arith))
    where
      decides : (received : List (ℕ × R)) → IsWaiting received ⊎ (¬ IsWaiting received)
      decides received = elim (Option-cases (returned received)) [
        | inl silent ↦ inl silent
        | inr (out, e) ↦ inr (some-not_none (returned received) out e)
      ]
