-- ===== src/Loadgen/Exit.antt =====
-- What exit code 0 says.
use homedns.Prelude.{
  ℕ, ◌+◌, ◌≡◌, refl, ◌∙◌, ◌↔◌, Bool, true, false, List, [], ◌∷◌, Option, none, some, Bytes, All,
  arith, length, length-append, ◌==◌, if◌then◌else◌,
}
use homedns.Loadgen.{
  Outcome, answered, broken, Tally, new_tally, is_wrong, count_answer, count_error, worker_loop,
  Worker, merge, worker, run, mismatches, exit_code,
}

-- An answer with the expected code.
abbrev pub IsExpected : Option ℕ → (Bytes × Outcome) → Type 0
IsExpected want (name, answered took rcode) = is_wrong want rcode ≡ false
IsExpected want (name, broken redialled) = ⊥

-- How many answers of a worker have another code than `want`.
unfoldable pub wrong_of : ℕ → List (Bytes × Outcome) → ℕ
wrong_of want [] = 0
wrong_of want ((name, answered took rcode) ∷ taken) =
    (if rcode == want then 0 else 1) + wrong_of want taken
wrong_of want ((name, broken true) ∷ taken) = wrong_of want taken
wrong_of want ((name, broken false) ∷ taken) = 0

unfoldable pub errors_of : List (Bytes × Outcome) → ℕ
errors_of [] = 0
errors_of ((name, answered took rcode) ∷ taken) = errors_of taken
errors_of ((name, broken true) ∷ taken) = 1 + errors_of taken
errors_of ((name, broken false) ∷ taken) = 1

module _ (expect : Option ℕ) (want : ℕ) where
  -- The answers that are counted are those with the code and those with another one.
  worker_loop_wrong :
      (taken : List (Bytes × Outcome)) (t : Tally)
      → length (worker_loop expect taken t).latencies + t.rcodes want
        ≡ (worker_loop expect taken t).rcodes want + length t.latencies + wrong_of want taken
  unfolding worker_loop wrong_of
  worker_loop_wrong [] t = omega arith
  worker_loop_wrong ((name, answered took rcode) ∷ taken) t = ground (
    arith,
    worker_loop_wrong taken (count_answer expect name took rcode t),
    length-append t.latencies (took ∷ []),
  )
  worker_loop_wrong ((name, broken true) ∷ taken) t = worker_loop_wrong taken (count_error name t)
  worker_loop_wrong ((name, broken false) ∷ taken) t = omega arith

worker_loop_errors :
    (expect : Option ℕ) (taken : List (Bytes × Outcome)) (t : Tally)
    → (worker_loop expect taken t).errors ≡ t.errors + errors_of taken
unfolding worker_loop errors_of
worker_loop_errors expect [] t = omega arith
worker_loop_errors expect ((name, answered took rcode) ∷ taken) t =
    worker_loop_errors expect taken (count_answer expect name took rcode t)
worker_loop_errors expect ((name, broken true) ∷ taken) t =
    worker_loop_errors expect taken (count_error name t) ∙ omega arith
worker_loop_errors expect ((name, broken false) ∷ taken) t = omega arith

-- The same over the workers that could dial.
unfoldable pub all_wrong : ℕ → List Worker → ℕ
unfolding wrong_of
all_wrong want [] = 0
all_wrong want (w ∷ ws) = (if w.dialled then wrong_of want w.taken else 0) + all_wrong want ws

unfoldable pub all_errors : List Worker → ℕ
unfolding errors_of
all_errors [] = 0
all_errors (w ∷ ws) = (if w.dialled then errors_of w.taken else 1) + all_errors ws

worker_wrong :
    (expect : Option ℕ) (want : ℕ) (w : Worker) (r : Tally)
    → length (worker expect w r).latencies + r.rcodes want
      ≡ (worker expect w r).rcodes want
        + length r.latencies
        + (if w.dialled then wrong_of want w.taken else 0)
unfolding worker merge
worker_wrong expect want w r = ground (
  arith,
  worker_loop_wrong expect want w.taken new_tally,
  length-append r.latencies (worker_loop expect w.taken new_tally).latencies,
)

worker_errors :
    (expect : Option ℕ) (w : Worker) (r : Tally)
    → (worker expect w r).errors ≡ r.errors + (if w.dialled then errors_of w.taken else 1)
unfolding worker merge
worker_errors expect w r = ground (arith, worker_loop_errors expect w.taken new_tally)

run_wrong :
    (expect : Option ℕ) (want : ℕ) (ws : List Worker) (r : Tally)
    → length (run expect ws r).latencies + r.rcodes want
      ≡ (run expect ws r).rcodes want + length r.latencies + all_wrong want ws
unfolding run all_wrong
run_wrong expect want [] r = omega arith
run_wrong expect want (w ∷ ws) r =
    omega (arith, worker_wrong expect want w r, run_wrong expect want ws (worker expect w r))

run_errors :
    (expect : Option ℕ) (ws : List Worker) (r : Tally)
    → (run expect ws r).errors ≡ r.errors + all_errors ws
unfolding run all_errors
run_errors expect [] r = omega arith
run_errors expect (w ∷ ws) r =
    omega (arith, worker_errors expect w r, run_errors expect ws (worker expect w r))

-- A worker that could dial, and whose names all got the expected answer.
abbrev pub IsClean : Option ℕ → Worker → Type 0
IsClean expect w = (w.dialled ≡ true) × All (IsExpected expect) w.taken

clean_none : (taken : List (Bytes × Outcome)) → (errors_of taken ≡ 0) ↔ All (IsExpected none) taken
unfolding errors_of is_wrong
clean_none [] = (λ h. tt, λ h. refl)
clean_none ((name, answered took rcode) ∷ taken) =
    let ih = clean_none taken in (λ h. (refl, ih.0 h), λ h. ih.1 h.1)
clean_none ((name, broken true) ∷ taken) = (λ h. absurd (omega arith), λ h. absurd h.0)
clean_none ((name, broken false) ∷ taken) = (λ h. absurd (omega arith), λ h. absurd h.0)

clean_some :
    (want : ℕ) (taken : List (Bytes × Outcome))
    → ((errors_of taken ≡ 0) × (wrong_of want taken ≡ 0)) ↔ All (IsExpected (some want)) taken
unfolding errors_of wrong_of is_wrong
clean_some want [] = (λ h. tt, λ h. (refl, refl))
clean_some want ((name, answered took rcode) ∷ taken) =
    let ih = clean_some want taken in
    (
      λ h. (ground arith, ih.0 (h.0, ground arith)),
      λ h. let t = ih.1 h.1 in (t.0, ground (arith, h.0)),
    )
clean_some want ((name, broken true) ∷ taken) = (λ h. absurd (omega arith), λ h. absurd h.0)
clean_some want ((name, broken false) ∷ taken) = (λ h. absurd (omega arith), λ h. absurd h.0)

one_none :
    (dialled : Bool) (taken : List (Bytes × Outcome))
    → ((if dialled then errors_of taken else 1) ≡ 0)
      ↔ ((dialled ≡ true) × All (IsExpected none) taken)
one_none true taken = (λ h. (refl, (clean_none taken).0 h), λ h. (clean_none taken).1 h.1)
one_none false taken = (λ h. absurd (omega arith), λ h. cc (h.0))

one_some :
    (want : ℕ) (dialled : Bool) (taken : List (Bytes × Outcome))
    → (((if dialled then errors_of taken else 1) ≡ 0)
        × ((if dialled then wrong_of want taken else 0) ≡ 0))
      ↔ ((dialled ≡ true) × All (IsExpected (some want)) taken)
one_some want true taken =
    (λ h. (refl, (clean_some want taken).0 h), λ h. (clean_some want taken).1 h.1)
one_some want false taken = (λ h. absurd (omega arith), λ h. cc (h.0))

errors-IsClean : (ws : List Worker) → (all_errors ws ≡ 0) ↔ All (IsClean none) ws
unfolding all_errors
errors-IsClean [] = (λ h. tt, λ h. refl)
errors-IsClean (w ∷ ws) =
    let one = one_none w.dialled w.taken in
    let ih = errors-IsClean ws in
    (
      λ h. (one.0 (omega arith), ih.0 (omega arith)),
      λ h. let a = one.1 h.0 in let b = ih.1 h.1 in omega arith,
    )

wrong-IsClean :
    (want : ℕ) (ws : List Worker)
    → ((all_errors ws ≡ 0) × (all_wrong want ws ≡ 0)) ↔ All (IsClean (some want)) ws
unfolding all_errors all_wrong
wrong-IsClean want [] = (λ h. tt, λ h. (refl, refl))
wrong-IsClean want (w ∷ ws) =
    let one = one_some want w.dialled w.taken in
    let ih = wrong-IsClean want ws in
    (
      λ h. (one.0 (omega arith, omega arith), ih.0 (omega arith, omega arith)),
      λ h. let a = one.1 h.0 in let b = ih.1 h.1 in (omega arith, omega arith),
    )

-- The exit code is 0 exactly if every worker could dial and every name that a worker took got an
-- answer, with the expected code if one was given.
pub exit_code_iff :
    (expect : Option ℕ) (ws : List Worker)
    → (exit_code expect (run expect ws new_tally) ≡ 0) ↔ All (IsClean expect) ws
unfolding exit_code mismatches
exit_code_iff none ws =
    let e = run_errors none ws new_tally in
    let clean = errors-IsClean ws in
    (λ h. clean.0 (ground (arith, e)), λ h. let none_wrong = clean.1 h in ground (arith, e))
exit_code_iff (some want) ws =
    let e = run_errors (some want) ws new_tally in
    let m = run_wrong (some want) want ws new_tally in
    let clean = wrong-IsClean want ws in
    (
      λ h. clean.0 (ground (arith, e), ground (arith, m)),
      λ h. let none_wrong = clean.1 h in ground (arith, e, m),
    )
