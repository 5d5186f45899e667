-- ===== src/Loadgen/System.antt =====
-- `run` of scripts/loadgen/main.go as a whole: the loop over the names, the channel, and each worker
-- with what it takes and gets.
use homedns.Prelude.{
  ℕ, zero, suc, ◌<◌, ◌≡◌, Bool, true, false, List, [], ◌∷◌, ◌++◌, Bytes, length, map, All,
}
use homedns.Loadgen.{Outcome, answered, broken, Worker}
use homedns.Loadgen.{capacity}
pub mod Count
pub mod Conserve
pub mod Undialled
pub mod Deadlock

-- Where a worker stands: in its first Dial, in the loop over the queue, or at its end.
pub data Place : Type 0 where
  dialling looping returned : Place

pub record Slot : Type 0 where
  pub place : Place
  pub dialled : Bool
  pub taken : List (Bytes × Outcome)

pub record System : Type 0 where
  pub pending : List Bytes
  pub channel : List Bytes
  pub is_closed : Bool
  pub slots : List Slot

abbrev pub new_slot : Slot
new_slot = record { place = dialling; dialled = false; taken = [] }

abbrev pub new_slots : ℕ → List Slot
new_slots zero = []
new_slots (suc k) = new_slot ∷ new_slots k

abbrev pub new_system : ℕ → List Bytes → System
new_system workers names = record {
  pending = names;
  channel = [];
  is_closed = false;
  slots = new_slots workers;
}

-- Behind an outcome the loop goes on, unless the worker cannot dial again.
abbrev pub place_after : Outcome → Place
place_after (answered took rcode) = looping
place_after (broken true) = looping
place_after (broken false) = returned

pub data Step (cap : ℕ) (s : System) : System → Type 0 where
  send :
      (n : Bytes) (ns : List Bytes)
      → s.pending ≡ n ∷ ns
      → length s.channel < cap
      → Step cap s (record s { pending = ns; channel = s.channel ++ n ∷ [] })
  close : s.pending ≡ [] → s.is_closed ≡ false → Step cap s (record s { is_closed = true })
  dial :
      (xs : List Slot) (w : Slot) (ys : List Slot)
      → s.slots ≡ xs ++ w ∷ ys
      → w.place ≡ dialling
      → Step cap s (record s { slots = xs ++ record w { place = looping; dialled = true } ∷ ys })
  give_up :
      (xs : List Slot) (w : Slot) (ys : List Slot)
      → s.slots ≡ xs ++ w ∷ ys
      → w.place ≡ dialling
      → Step cap s (record s { slots = xs ++ record w { place = returned; dialled = false } ∷ ys })
  ask :
      (xs : List Slot) (w : Slot) (ys : List Slot) (n : Bytes) (ns : List Bytes) (o : Outcome)
      → s.slots ≡ xs ++ w ∷ ys
      → w.place ≡ looping
      → s.channel ≡ n ∷ ns
      → Step cap s (record s {
        channel = ns;
        slots = xs ++ record w { place = place_after o; taken = w.taken ++ (n, o) ∷ [] } ∷ ys;
      })
  finish :
      (xs : List Slot) (w : Slot) (ys : List Slot)
      → s.slots ≡ xs ++ w ∷ ys
      → w.place ≡ looping
      → s.channel ≡ []
      → s.is_closed ≡ true
      → Step cap s (record s { slots = xs ++ record w { place = returned } ∷ ys })

pub data Reach (cap : ℕ) (s : System) : System → Type 0 where
  here : Reach cap s s
  step : {t u : System} → Reach cap s t → Step cap t u → Reach cap s u

-- `run` has returned: the channel is closed, and no worker is left.
pub record IsOver (s : System) : Type 0 where
  pub closed : s.is_closed ≡ true
  pub returns : All (λ (w : Slot). w.place ≡ returned) s.slots

-- What a worker brings to `results`.
abbrev pub worker_of : Slot → Worker
worker_of w = record { dialled = w.dialled; taken = w.taken }
