-- ===== src/Tests/LoadgenRun.antt =====
-- A whole run of scripts/loadgen/main.go with one worker and two names, and its report.
use homedns.Prelude.{◌*◌, ◌/◌, ◌≤◌, ◌≡◌, refl, true, List, [], ◌∷◌, some, Bytes, codes, All, arith}
use mathlib.Core.List.Permᴰ
use native.Mathlib.Nat.{mul-le-mul_left, div-le_of_le-mul, le-div_iff_mul-le, div-mul-le_self}
use homedns.Loadgen.{
  answered, new_tally, run, exit_code, mismatches, worker, merge, worker_loop, count_answer,
  count_error, is_wrong,
}
use homedns.Loadgen.Exit.{IsExpected}
use homedns.Loadgen.{capacity}
use homedns.Loadgen.System.{
  Step, IsOver, System, Slot, new_system, new_slot, Reach, here, step, send, close, dial, ask,
  finish, give_up, returned, worker_of,
}
use homedns.Loadgen.System.Undialled.{IsUndialled}
use homedns.Loadgen.System.Deadlock.{IsUndialled-blocks}
use homedns.Loadgen.System.Count.{times_asked, count}
use homedns.Loadgen.System.Conserve.{exit_zero-asks_all}
use homedns.Loadgen.Report.{ReportLib, ReportLaws, pct}

abbrev names : List Bytes
names = codes "a" ∷ codes "b" ∷ []

abbrev ended : Slot
ended = record {
  place = returned;
  dialled = true;
  taken = (codes "a", answered 5 3) ∷ (codes "b", answered 2 3) ∷ [];
}

abbrev over : System
over = record { pending = []; channel = []; is_closed = true; slots = ended ∷ [] }

to_over : Reach (capacity 1) (new_system 1 names) over
to_over =
    step
      (step
        (step
          (step
            (step
              (step (step here (dial [] new_slot [] refl refl))
                (send (codes "a") (codes "b" ∷ []) refl (omega arith)))
              (ask [] _ [] (codes "a") [] (answered 5 3) refl refl refl))
            (send (codes "b") [] refl (omega arith)))
          (ask [] _ [] (codes "b") [] (answered 2 3) refl refl refl))
        (close refl refl))
      (finish [] _ [] refl refl refl refl)

clean_run : exit_code (some 3) (run (some 3) (worker_of ended ∷ []) new_tally) ≡ 0
unfolding exit_code mismatches run worker merge worker_loop count_answer count_error is_wrong
clean_run = refl

exit_zero-asks_all_example :
    ((n : Bytes) → times_asked n over.slots ≡ count n names)
    × All (λ (w : Slot). All (IsExpected (some 3)) w.taken) over.slots
exit_zero-asks_all_example =
    exit_zero-asks_all 0 names (some 3) (worker_of ended ∷ []) to_over
      (record { closed = refl; returns = (refl, tt) }) (Permᴰ.refl (worker_of ended ∷ [])) clean_run

-- A whole number in place of the product of two floats.
abbrev lib : ReportLib
lib = record {
  scale = λ n p. n * p / 100;
  round_to = λ d unit. d;
  per_second = λ n took. codes "fast";
  rcode_name = λ c. codes "NXDOMAIN";
}

laws : ReportLaws lib
laws = record {
  scale_le = λ n p few le.
      let bound : n * p ≤ n * 100 = mul-le-mul_left n le in
      div-le_of_le-mul 100 (omega (arith, bound));
  scale_mono = λ n p q le.
      let bound : n * p ≤ n * q = mul-le-mul_left n le in
      (le-div_iff_mul-le (omega arith)).1 (omega (arith, div-mul-le_self (n * p) 100, bound));
}

median : pct lib (2 ∷ 5 ∷ 9 ∷ []) 50 ≡ some 5
unfolding pct
median = refl

-- The one worker has given up, and there are five names.
abbrev five : List Bytes
five = codes "a" ∷ codes "b" ∷ codes "c" ∷ codes "d" ∷ codes "e" ∷ []

abbrev abandoned : System
abandoned = record (new_system 1 five) { slots = record new_slot { place = returned } ∷ [] }

IsUndialled-blocks_example :
    ¬ IsOver abandoned
    × ((t : System) × Reach (capacity 1) abandoned t
        × All IsUndialled t.slots
        × ((u : System) → ¬ Step (capacity 1) t u)
        × ¬ IsOver t)
IsUndialled-blocks_example =
    IsUndialled-blocks 1 five (omega arith) (step here (give_up [] new_slot [] refl refl))
      (refl, tt)
