-- ===== src/Loadgen/System/Conserve.antt =====
-- A run that succeeds has asked every name.
use homedns.Prelude.{
  ℕ, suc, ◌+◌, ◌≡◌, refl, ap, subst, true, false, List, [], ◌∷◌, ◌++◌, Option, Bytes, arith, map,
  All, All-imp, All-mem, mem-All, Memᴰ,
}
use mathlib.Core.List.{Permᴰ}
use homedns.Loadgen.{Outcome, answered, broken, Worker, new_tally, run, exit_code}
use homedns.Loadgen.Exit.{IsExpected, IsClean, exit_code_iff}
use homedns.Loadgen.{capacity}
use homedns.Loadgen.System.{
  looping, returned, Slot, System, new_slot, new_slots, new_system, place_after, Step, send, close,
  dial, give_up, ask, finish, Reach, here, step, IsOver, worker_of,
}
use homedns.Loadgen.System.Count.{
  count, times_taken, times_asked, count-append, count_cons, count_nil, none_asked,
  new_slots-dialling, mem-middle, times_taken-append, times_asked-update, All-update,
}

module _ (cap : ℕ) (names : List Bytes) (expect : Option ℕ) where
  -- A worker with nothing but expected answers returns when the channel is closed and empty.
  abbrev EndsLate : System → Slot → Type 0
  EndsLate s w =
      w.place ≡ returned → IsClean expect (worker_of w) → (s.is_closed ≡ true) × (s.channel ≡ [])

  record IsKept (s : System) : Type 0 where
    kept :
        (n : Bytes)
        → times_asked n s.slots + (count n s.channel + count n s.pending) ≡ count n names
    closed : s.is_closed ≡ true → s.pending ≡ []
    late : All (EndsLate s) s.slots
    some_slot : (w : Slot) × Memᴰ w s.slots

  late_after :
      (n : Bytes) (o : Outcome) (taken : List (Bytes × Outcome))
      → place_after o ≡ returned
      → All (IsExpected expect) (taken ++ (n, o) ∷ [])
      → ⊥
  late_after n (answered took rcode) taken r h = cc
  late_after n (broken true) taken r h = cc
  late_after n (broken false) [] r h = h.0
  late_after n (broken false) (x ∷ taken) r h = late_after n (broken false) taken r h.1

  -- One worker moves on without a name.
  update :
      {s : System}
      → IsKept s
      → (xs : List Slot) (w : Slot) (ys : List Slot) → s.slots ≡ xs ++ w ∷ ys
      → (v : Slot) → v.taken ≡ w.taken
      → EndsLate s v
      → IsKept (record s { slots = xs ++ v ∷ ys })
  update {s} k xs w ys e v same late = record {
    kept = λ m. omega (
      arith,
      k.kept m,
      ap (times_asked m) e,
      times_asked-update m xs w v ys,
      ap (times_taken m) same,
    );
    closed = k.closed;
    late = All-update _ xs w v ys late (subst (All (EndsLate s)) e k.late);
    some_slot = (v, mem-middle xs v ys);
  }

  Step-IsKept : {s t : System} → Step cap s t → IsKept s → IsKept t
  Step-IsKept {s} (send n ns e room) k = record {
    kept = λ m. omega (
      arith,
      k.kept m,
      ap (count m) e,
      count_cons m n ns,
      count-append m s.channel (n ∷ []),
      count_cons m n [],
      count_nil m,
    );
    closed = λ c. absurd (cc (k.closed c, e));
    late = All-imp (EndsLate s) _ s.slots (λ w h r c. absurd (cc (k.closed (h r c).0, e))) k.late;
    some_slot = k.some_slot;
  }
  Step-IsKept {s} (close e d) k = record {
    kept = k.kept;
    closed = λ c. e;
    late = All-imp (EndsLate s) _ s.slots (λ w h r c. (refl, (h r c).1)) k.late;
    some_slot = k.some_slot;
  }
  Step-IsKept (dial xs w ys e p) k =
      update k xs w ys e (record w { place = looping; dialled = true }) refl (λ r. cc)
  Step-IsKept (give_up xs w ys e p) k =
      update k xs w ys e (record w { place = returned; dialled = false }) refl
        (λ r c. absurd (cc c.0))
  Step-IsKept {s} (ask xs w ys n ns o e p c) k =
      let v : Slot = record w { place = place_after o; taken = w.taken ++ (n, o) ∷ [] } in
      record {
        kept = λ m. omega (
          arith,
          k.kept m,
          ap (times_asked m) e,
          ap (count m) c,
          times_asked-update m xs w v ys,
          times_taken-append m n o w.taken,
          count_cons m n ns,
        );
        closed = k.closed;
        late =
            All-update _ xs w v ys (λ r clean. absurd (late_after n o w.taken r clean.1))
              (All-imp (EndsLate s) _ (xs ++ w ∷ ys) (λ u h r clean. absurd (cc ((h r clean).1, c)))
                (subst (All (EndsLate s)) e k.late));
        some_slot = (v, mem-middle xs v ys);
      }
  Step-IsKept (finish xs w ys e p c d) k =
      update k xs w ys e (record w { place = returned }) refl (λ r clean. (d, c))

  Reach-IsKept : {s t : System} → Reach cap s t → IsKept s → IsKept t
  Reach-IsKept here k = k
  Reach-IsKept (step r u) k = Step-IsKept u (Reach-IsKept r k)

  new_system-IsKept : (workers : ℕ) → IsKept (new_system (suc workers) names)
  new_system-IsKept workers = record {
    kept = λ n. omega (arith, none_asked n (suc workers), count_nil n);
    closed = λ c. cc;
    late =
        All-mem _ (new_slots (suc workers))
          (λ w m r. absurd (cc (new_slots-dialling (suc workers) m, r)));
    some_slot = (new_slot, Memᴰ.head refl);
  }

-- The same workers in another order.
All-Permᴰ : {A : Type 0} (P : A → Type 0) {xs ys : List A} → Permᴰ xs ys → All P xs → All P ys
All-Permᴰ P Permᴰ.nil h = tt
All-Permᴰ P (Permᴰ.cons e p) h = (subst P e h.0, All-Permᴰ P p h.1)
All-Permᴰ P (Permᴰ.swap e f) h = (subst P f h.1.0, (subst P e h.0, h.1.1))
All-Permᴰ P (Permᴰ.trans p q) h = All-Permᴰ P q (All-Permᴰ P p h)

All-map :
    {A B : Type 0} (P : B → Type 0) (f : A → B) (xs : List A)
    → All P (map f xs)
    → All (λ x. P (f x)) xs
All-map P f [] h = tt
All-map P f (x ∷ xs) h = (h.0, All-map P f xs h.1)

-- If `run` has returned with at least one worker and the exit code is 0, whatever the order in which
-- the workers added up their results, then every name was asked as often as it is listed, and every
-- name that was asked got an answer with the expected code.
pub exit_zero-asks_all :
    (workers : ℕ) (names : List Bytes) (expect : Option ℕ) (ws : List Worker) {s : System}
    → Reach (capacity (suc workers)) (new_system (suc workers) names) s
    → IsOver s
    → Permᴰ ws (map worker_of s.slots)
    → exit_code expect (run expect ws new_tally) ≡ 0
    → ((n : Bytes) → times_asked n s.slots ≡ count n names)
      × All (λ (w : Slot). All (IsExpected expect) w.taken) s.slots
exit_zero-asks_all workers names expect ws {s} reached over merged zero_exit =
    let cap = capacity (suc workers) in
    let k = Reach-IsKept cap names expect reached (new_system-IsKept cap names expect workers) in
    let clean =
      All-map (IsClean expect) worker_of s.slots
        (All-Permᴰ (IsClean expect) merged ((exit_code_iff expect ws).0 zero_exit)) in
    let (w, m) = k.some_slot in
    let empty =
      mem-All (EndsLate cap names expect s) k.late m
        (mem-All (λ (v : Slot). v.place ≡ returned) over.returns m)
        (mem-All (λ (v : Slot). IsClean expect (worker_of v)) clean m) in
    (
      λ n.
          omega (
            arith,
            k.kept n,
            ap (count n) empty.1,
            ap (count n) (k.closed over.closed),
            count_nil n,
          ),
      All-imp _ _ s.slots (λ v c. c.1) clean,
    )
