-- ===== src/Loadgen/System/Undialled.antt =====
-- A run in which no worker can dial.
use homedns.Prelude.{
  ℕ, zero, suc, ◌+◌, ◌≤◌, ◌<◌, ◌≡◌, ◌≢◌, refl, ap, subst, true, false, List, [], ◌∷◌, ◌++◌, Bytes,
  arith, map, length, All, mem-All, length-append,
}
use homedns.Loadgen.{total_taken, Outcome, answered, broken}
use homedns.Loadgen.System.{
  dialling, looping, returned, Slot, System, new_slots, new_system, Step, send, close, dial,
  give_up, ask, finish, Reach, here, step, IsOver, worker_of, place_after,
}
use homedns.Loadgen.System.Count.{mem-middle, All-update}

abbrev taken_by : List Slot → ℕ
taken_by ws = total_taken (map worker_of ws)

taken_by-update :
    (xs : List Slot) (v w : Slot) (ys : List Slot)
    → taken_by (xs ++ v ∷ ys) + length w.taken ≡ taken_by (xs ++ w ∷ ys) + length v.taken
unfolding total_taken
taken_by-update [] v w ys = omega arith
taken_by-update (x ∷ xs) v w ys = omega (arith, taken_by-update xs v w ys)

-- A worker that has not dialled yet, or could not, has taken nothing and is not in its loop.
pub record IsIdle (w : Slot) : Type 0 where
  pub at_first : w.place ≡ dialling → w.taken ≡ []
  pub no_name : w.dialled ≡ false → w.taken ≡ []
  pub no_loop : w.dialled ≡ false → w.place ≢ looping

pub All-middle :
    (P : Slot → Type 0) (xs : List Slot) (w : Slot) (ys : List Slot) → All P (xs ++ w ∷ ys) → P w
All-middle P xs w ys h = mem-All P h (mem-middle xs w ys)

place_after-dialling : (o : Outcome) → place_after o ≢ dialling
place_after-dialling (answered took rcode) e = cc
place_after-dialling (broken true) e = cc
place_after-dialling (broken false) e = cc

abbrev pub IsUndialled : Slot → Type 0
IsUndialled w = w.dialled ≡ false

module _ (cap : ℕ) (names : List Bytes) where
  pub record IsCounted (s : System) : Type 0 where
    room : length s.channel ≤ cap
    closed : s.is_closed ≡ true → s.pending ≡ []
    counted : taken_by s.slots + (length s.channel + length s.pending) ≡ length names
    pub idle : All IsIdle s.slots

  -- A worker moves on without a name.
  moves :
      {s : System}
      → IsCounted s
      → (xs : List Slot) (w : Slot) (ys : List Slot) → s.slots ≡ xs ++ w ∷ ys
      → (v : Slot) → v.taken ≡ w.taken
      → IsIdle v
      → IsCounted (record s { slots = xs ++ v ∷ ys })
  moves k xs w ys e v same idle = record {
    room = k.room;
    closed = k.closed;
    counted = omega (arith, k.counted, ap taken_by e, taken_by-update xs v w ys, ap length same);
    idle = All-update IsIdle xs w v ys idle (subst (All IsIdle) e k.idle);
  }

  Step-IsCounted : {s t : System} → Step cap s t → IsCounted s → IsCounted t
  Step-IsCounted {s} (send n ns e room) k =
      let grown = length-append s.channel (n ∷ []) in
      record {
        room = omega (arith, grown);
        closed = λ c. absurd (cc (k.closed c, e));
        counted = omega (arith, k.counted, grown, ap length e);
        idle = k.idle;
      }
  Step-IsCounted (close e c) k = record {
    room = k.room;
    closed = λ d. e;
    counted = k.counted;
    idle = k.idle;
  }
  Step-IsCounted (dial xs w ys e p) k =
      moves k xs w ys e (record w { place = looping; dialled = true }) refl
        (record { at_first = λ h. cc; no_name = λ h. cc; no_loop = λ h. cc })
  Step-IsCounted (give_up xs w ys e p) k =
      let was = All-middle IsIdle xs w ys (subst (All IsIdle) e k.idle) in
      moves k xs w ys e (record w { place = returned; dialled = false }) refl
        (record { at_first = λ h. cc; no_name = λ h. was.at_first p; no_loop = λ h i. cc })
  Step-IsCounted {s} (ask xs w ys n ns o e p c) k =
      let was = All-middle IsIdle xs w ys (subst (All IsIdle) e k.idle) in
      let v : Slot = record w { place = place_after o; taken = w.taken ++ (n, o) ∷ [] } in
      record {
        room = omega (arith, k.room, ap length c);
        closed = k.closed;
        counted = omega (
          arith,
          k.counted,
          ap taken_by e,
          ap length c,
          taken_by-update xs v w ys,
          length-append w.taken ((n, o) ∷ []),
        );
        idle =
            All-update IsIdle xs w v ys
              (record {
                at_first = λ h. absurd (place_after-dialling o h);
                no_name = λ h. absurd (was.no_loop h p);
                no_loop = λ h. absurd (was.no_loop h p);
              })
              (subst (All IsIdle) e k.idle);
      }
  Step-IsCounted (finish xs w ys e p c d) k =
      let was = All-middle IsIdle xs w ys (subst (All IsIdle) e k.idle) in
      moves k xs w ys e (record w { place = returned }) refl
        (record { at_first = λ h. cc; no_name = was.no_name; no_loop = λ h i. cc })

  pub Reach-IsCounted : {s t : System} → Reach cap s t → IsCounted s → IsCounted t
  Reach-IsCounted here k = k
  Reach-IsCounted (step r st) k = Step-IsCounted st (Reach-IsCounted r k)

  new_slots-IsIdle : (k : ℕ) → All IsIdle (new_slots k) × (taken_by (new_slots k) ≡ 0)
  unfolding total_taken
  new_slots-IsIdle zero = (tt, refl)
  new_slots-IsIdle (suc k) =
      let (idle, none_taken) = new_slots-IsIdle k in
      (
        (record { at_first = λ h. refl; no_name = λ h. refl; no_loop = λ h i. cc }, idle),
        omega (arith, none_taken),
      )

  pub new_system-IsCounted : (workers : ℕ) → IsCounted (new_system workers names)
  new_system-IsCounted workers =
      let (idle, none_taken) = new_slots-IsIdle workers in
      record {
        room = omega arith;
        closed = λ h. cc;
        counted = omega (arith, none_taken);
        idle = idle;
      }

  IsUndialled-none_taken : (ws : List Slot) → All IsIdle ws → All IsUndialled ws → taken_by ws ≡ 0
  unfolding total_taken
  IsUndialled-none_taken [] idle h = refl
  IsUndialled-none_taken (w ∷ ws) idle h =
      omega (arith, ap length (idle.0.no_name h.0), IsUndialled-none_taken ws idle.1 h.1)

  pub IsUndialled-waiting :
      {s : System}
      → cap < length names
      → IsCounted s
      → All IsUndialled s.slots
      → (length s.channel ≤ cap) × (cap < length s.channel + length s.pending)
  IsUndialled-waiting {s} more k h =
      (k.room, omega (arith, k.counted, IsUndialled-none_taken s.slots k.idle h))

  pub IsUndialled-unsent :
      {s : System} → cap < length names → IsCounted s → All IsUndialled s.slots → s.pending ≢ []
  IsUndialled-unsent {s} more k h e =
      omega (arith, k.counted, k.room, IsUndialled-none_taken s.slots k.idle h, ap length e)

  pub IsUndialled-not-IsOver :
      {s : System} → cap < length names → IsCounted s → All IsUndialled s.slots → ¬ IsOver s
  IsUndialled-not-IsOver more k h over = IsUndialled-unsent more k h (k.closed over.closed)
