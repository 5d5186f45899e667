-- ===== src/Loadgen/System/Count.antt =====
-- How often a run of the load generator names and asks each name.
use homedns.Prelude.{
  ℕ, zero, suc, ◌+◌, ◌≡◌, refl, ap, List, [], ◌∷◌, ◌++◌, Bytes, arith, All, Memᴰ, str_eq,
  if◌then◌else◌,
}
use homedns.Loadgen.{Outcome}
use homedns.Loadgen.System.{dialling, Slot, new_slots}

-- How often a list names `n`, a worker took `n`, and all workers together.
unfoldable pub count : Bytes → List Bytes → ℕ
count n [] = 0
count n (m ∷ ms) = (if str_eq n m then 1 else 0) + count n ms

unfoldable pub times_taken : Bytes → List (Bytes × Outcome) → ℕ
times_taken n [] = 0
times_taken n ((m, o) ∷ taken) = (if str_eq n m then 1 else 0) + times_taken n taken

unfoldable pub times_asked : Bytes → List Slot → ℕ
unfolding times_taken
times_asked n [] = 0
times_asked n (w ∷ ws) = times_taken n w.taken + times_asked n ws

pub count-append : (n : Bytes) (xs ys : List Bytes) → count n (xs ++ ys) ≡ count n xs + count n ys
unfolding count
count-append n [] ys = omega arith
count-append n (x ∷ xs) ys = omega (arith, count-append n xs ys)

pub count_cons :
    (n m : Bytes) (ms : List Bytes) → count n (m ∷ ms) ≡ (if str_eq n m then 1 else 0) + count n ms
unfolding count
count_cons n m ms = refl

pub count_nil : (n : Bytes) → count n [] ≡ 0
unfolding count
count_nil n = refl

pub none_asked : (n : Bytes) (k : ℕ) → times_asked n (new_slots k) ≡ 0
unfolding times_asked times_taken
none_asked n zero = refl
none_asked n (suc k) = omega (arith, none_asked n k)

pub new_slots-dialling : (k : ℕ) {w : Slot} → Memᴰ w (new_slots k) → w.place ≡ dialling
new_slots-dialling zero m = elim m [ ]
new_slots-dialling (suc k) (Memᴰ.head e) = ap (λ w. w.place) e
new_slots-dialling (suc k) (Memᴰ.tail m) = new_slots-dialling k m

pub mem-middle : (xs : List Slot) (v : Slot) (ys : List Slot) → Memᴰ v (xs ++ v ∷ ys)
mem-middle [] v ys = Memᴰ.head refl
mem-middle (x ∷ xs) v ys = Memᴰ.tail (mem-middle xs v ys)

pub times_taken-append :
    (n m : Bytes) (o : Outcome) (taken : List (Bytes × Outcome))
    → times_taken n (taken ++ (m, o) ∷ []) ≡ times_taken n taken + (if str_eq n m then 1 else 0)
unfolding times_taken
times_taken-append n m o [] = omega arith
times_taken-append n m o ((x, p) ∷ taken) = omega (arith, times_taken-append n m o taken)

-- One worker changes what it took.
pub times_asked-update :
    (n : Bytes) (xs : List Slot) (v w : Slot) (ys : List Slot)
    → times_asked n (xs ++ v ∷ ys) + times_taken n w.taken
      ≡ times_asked n (xs ++ w ∷ ys) + times_taken n v.taken
unfolding times_asked
times_asked-update n [] v w ys = omega arith
times_asked-update n (x ∷ xs) v w ys = omega (arith, times_asked-update n xs v w ys)

pub All-update {κ} :
    (P : Slot → Type κ) (xs : List Slot) (v w : Slot) (ys : List Slot)
    → P w
    → All P (xs ++ v ∷ ys)
    → All P (xs ++ w ∷ ys)
All-update P [] v w ys p h = (p, h.1)
All-update P (x ∷ xs) v w ys p h = (h.0, All-update P xs v w ys p h.1)
