-- ===== src/Loadgen/Report/Sort.antt =====
-- The sorted latencies.
use homedns.Prelude.{
  ℕ, zero, suc, ◌-◌, ◌≤◌, ◌≡◌, refl, List, [], ◌∷◌, some, Memᴰ, arith, length, get_elem?,
  mem-get_elem?, get_elem?-mem, All-mem, ltb, All, All-imp, mem-All, mem-swap, mem-cons_mono,
  Bool-cases, inl, inr,
}
use homedns.Loadgen.Report.{insert_duration, sort_durations}

abbrev pub IsAscending : List ℕ → Type 0
IsAscending [] = Unit
IsAscending (d ∷ ds) = All (λ e. d ≤ e) ds × IsAscending ds

insert_duration-mem :
    (d : ℕ) (es : List ℕ) {a : ℕ} → Memᴰ a (insert_duration d es) → Memᴰ a (d ∷ es)
unfolding insert_duration
insert_duration-mem d [] m = m
insert_duration-mem d (e ∷ es) {a} m = elim (Bool-cases (ltb e d)) [
  | inl less ↦
      let m' : Memᴰ a (e ∷ insert_duration d es) = rw less at m in
      mem-swap (mem-cons_mono e (insert_duration-mem d es) m')
  | inr not_less ↦ let m' : Memᴰ a (d ∷ e ∷ es) = rw not_less at m in m'
]

insert_duration-All :
    (P : ℕ → Type 0) (d : ℕ) (es : List ℕ) → P d → All P es → All P (insert_duration d es)
unfolding insert_duration
insert_duration-All P d [] p h = (p, tt)
insert_duration-All P d (e ∷ es) p h = elim (Bool-cases (ltb e d)) [
  | inl less ↦ rw less (h.0, insert_duration-All P d es p h.1)
  | inr not_less ↦ rw not_less (p, h)
]

insert_duration-IsAscending :
    (d : ℕ) (es : List ℕ) → IsAscending es → IsAscending (insert_duration d es)
unfolding insert_duration
insert_duration-IsAscending d [] h = (tt, tt)
insert_duration-IsAscending d (e ∷ es) h = elim (Bool-cases (ltb e d)) [
  | inl less ↦ rw less (
    insert_duration-All (λ x. e ≤ x) d es (ground arith) h.0,
    insert_duration-IsAscending d es h.1,
  )
  | inr not_less ↦
      rw not_less
        ((ground arith, All-imp (λ x. e ≤ x) (λ x. d ≤ x) es (λ x p. ground arith) h.0), h)
]

pub sort_durations-IsAscending : (ds : List ℕ) → IsAscending (sort_durations ds)
unfolding sort_durations
sort_durations-IsAscending [] = tt
sort_durations-IsAscending (d ∷ ds) =
    insert_duration-IsAscending d (sort_durations ds) (sort_durations-IsAscending ds)

pub sort_durations-mem : (ds : List ℕ) {a : ℕ} → Memᴰ a (sort_durations ds) → Memᴰ a ds
unfolding sort_durations
sort_durations-mem [] m = m
sort_durations-mem (d ∷ ds) m =
    mem-cons_mono d (sort_durations-mem ds) (insert_duration-mem d (sort_durations ds) m)

length-insert_duration : (d : ℕ) (es : List ℕ) → length (insert_duration d es) ≡ suc (length es)
unfolding insert_duration
length-insert_duration d [] = refl
length-insert_duration d (e ∷ es) = ground (arith, length-insert_duration d es)

pub length-sort_durations : (ds : List ℕ) → length (sort_durations ds) ≡ length ds
unfolding sort_durations
length-sort_durations [] = refl
length-sort_durations (d ∷ ds) =
    omega (arith, length-insert_duration d (sort_durations ds), length-sort_durations ds)

mem-insert_duration :
    (d : ℕ) (es : List ℕ) {a : ℕ} → Memᴰ a (d ∷ es) → Memᴰ a (insert_duration d es)
unfolding insert_duration
mem-insert_duration d [] m = m
mem-insert_duration d (e ∷ es) m = elim (Bool-cases (ltb e d)) [
  | inl less ↦ rw less (mem-cons_mono e (mem-insert_duration d es) (mem-swap m))
  | inr not_less ↦ rw not_less m
]

pub mem-sort_durations : (ds : List ℕ) {a : ℕ} → Memᴰ a ds → Memᴰ a (sort_durations ds)
unfolding sort_durations
mem-sort_durations [] m = m
mem-sort_durations (d ∷ ds) m =
    mem-insert_duration d (sort_durations ds) (mem-cons_mono d (mem-sort_durations ds) m)

pub get_elem?-IsAscending :
    (ds : List ℕ) (i j : ℕ) {a b : ℕ}
    → IsAscending ds
    → i ≤ j
    → get_elem? ds i ≡ some a
    → get_elem? ds j ≡ some b
    → a ≤ b
get_elem?-IsAscending [] i j up le f g = cc
get_elem?-IsAscending (d ∷ ds) zero zero up le f g = ground arith
get_elem?-IsAscending (d ∷ ds) zero (suc j) {a} {b} up le f g =
    let bound : d ≤ b = mem-All (λ e. d ≤ e) up.0 (mem-get_elem? ds j g) in ground arith
get_elem?-IsAscending (d ∷ ds) (suc i) zero up le f g = absurd (omega arith)
get_elem?-IsAscending (d ∷ ds) (suc i) (suc j) up le f g =
    get_elem?-IsAscending ds i j up.1 (omega arith) f g

-- The last of an ascending list is its greatest element.
pub last-greatest :
    (ds : List ℕ) {last : ℕ}
    → IsAscending ds
    → get_elem? ds (length ds - 1) ≡ some last
    → All (λ d. d ≤ last) ds
last-greatest ds up e = All-mem _ ds (λ d m.
    let (i, lt, at) = get_elem?-mem m in
    get_elem?-IsAscending ds i (length ds - 1) up (omega (arith, lt)) at e)
