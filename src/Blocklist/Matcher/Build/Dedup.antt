-- ===== src/Blocklist/Matcher/Build/Dedup.antt =====
-- The deduplicating loop writes into the array that it reads. It keeps every string once.
use homedns.Prelude.{
  ℕ, zero, suc, ◌+◌, ◌≤◌, ◌≡◌, refl, ◌∙◌, ◌↔◌, inl, inr, true, not, ◌||◌, List, [], ◌∷◌, ◌++◌,
  append-nil, append_assoc, Memᴰ, Bytes, arith, length, get_elem?, take, drop, set, length-set,
  drop-get_elem?, drop-set, take-set, drop-length, get_elem?-ne-none, str_eq, str_lt, str_eq-eq,
  str_eq_self, str_lt_trans, str_lt_total, Bool-cases, Option-cases, All-imp, mem-cons_mono, ◌==◌,
  if◌then◌else◌,
}
use homedns.Blocklist.Matcher.{dedup_loop, dedup}
use homedns.Blocklist.Matcher.Search.{IsStrictlySorted}
use homedns.Blocklist.Matcher.Build.Sort.{IsSorted}

-- The strings of a list but those that repeat the one before, the first of them after `last`.
uniq_after : Bytes → List Bytes → List Bytes
uniq_after last [] = []
uniq_after last (n ∷ rest) = if str_eq n last then uniq_after last rest else n ∷ uniq_after n rest

pub uniq : List Bytes → List Bytes
unfolding uniq_after
uniq [] = []
uniq (n ∷ rest) = n ∷ uniq_after n rest

-- What the loop appends from round `i` on.
pending : ℕ → Bytes → List Bytes → List Bytes
pending zero last rest = uniq rest
pending (suc i) last rest = uniq_after last rest

pending-cons :
    (i : ℕ) (last n : Bytes) (rest : List Bytes)
    → pending i last (n ∷ rest)
      ≡ (if (i == 0 || not (str_eq n last)) then n ∷ uniq_after n rest else uniq_after last rest)
unfolding pending uniq uniq_after
pending-cons zero last n rest = refl
pending-cons (suc i) last n rest = ground arith

pending-nil : (i : ℕ) (last : Bytes) → pending i last [] ≡ []
unfolding pending uniq uniq_after
pending-nil zero last = refl
pending-nil (suc i) last = refl

-- The write index never passes the read index, so a cell is read before it is overwritten.
dedup_loop-eq-pending :
    (rounds : ℕ) (cells : List Bytes) (i kept : ℕ) (last : Bytes)
    → i + rounds ≡ length cells
    → kept ≤ i
    → dedup_loop rounds cells i kept last ≡ take kept cells ++ pending i last (drop i cells)
unfolding dedup_loop pending
dedup_loop-eq-pending zero cells i kept last e h =
    rw (drop-length cells i (omega arith), pending-nil i last, append-nil)
dedup_loop-eq-pending (suc rounds) cells i kept last e h = elim (Option-cases (get_elem? cells i)) [
  | inl out ↦ absurd (get_elem?-ne-none cells i (omega arith) out)
  | inr (n, at) ↦
      rw (drop-get_elem? cells i at, pending-cons i last n (drop (suc i) cells), at, dedup_loop)
        (elim (Bool-cases (i == 0 || not (str_eq n last))) [
          | inl fresh ↦ rw (fresh) (
              dedup_loop-eq-pending rounds (set cells kept n) (suc i) (suc kept) n
                (omega (arith, length-set cells kept n)) (omega arith)
              ∙ rw (
                take-set cells kept n (omega arith),
                drop-set cells kept (suc i) n (omega arith),
                append_assoc,
              ))
          | inr repeats ↦
              rw (repeats)
                (dedup_loop-eq-pending rounds cells (suc i) kept last (omega arith) (omega arith))
        ])
]

-- The loop in place computes the strings without their repetitions.
pub dedup-eq-uniq : (sorted : List Bytes) → dedup sorted ≡ uniq sorted
unfolding dedup pending
dedup-eq-uniq sorted =
    dedup_loop-eq-pending (length sorted) sorted 0 0 [] (omega arith) (omega arith)

mem-merge :
    {a n last : Bytes} {xs : List Bytes} → n ≡ last → Memᴰ a (last ∷ n ∷ xs) → Memᴰ a (last ∷ xs)
mem-merge e (Memᴰ.head d) = Memᴰ.head d
mem-merge e (Memᴰ.tail (Memᴰ.head d)) = Memᴰ.head (d ∙ e)
mem-merge e (Memᴰ.tail (Memᴰ.tail m)) = Memᴰ.tail m

uniq_after-mem :
    (last : Bytes) (xs : List Bytes) {a : Bytes} → Memᴰ a (uniq_after last xs) → Memᴰ a xs
unfolding uniq_after
uniq_after-mem last [] m = m
uniq_after-mem last (n ∷ rest) {a} m = elim (Bool-cases (str_eq n last)) [
  | inl same ↦
      let m' : Memᴰ a (uniq_after last rest) = rw same at m in
      Memᴰ.tail (uniq_after-mem last rest m')
  | inr new ↦
      let m' : Memᴰ a (n ∷ uniq_after n rest) = rw new at m in
      mem-cons_mono n (uniq_after-mem n rest) m'
]

mem-uniq_after :
    (last : Bytes) (xs : List Bytes) {a : Bytes}
    → Memᴰ a (last ∷ xs)
    → Memᴰ a (last ∷ uniq_after last xs)
unfolding uniq_after
mem-uniq_after last [] m = m
mem-uniq_after last (n ∷ rest) {a} m = elim (Bool-cases (str_eq n last)) [
  | inl same ↦ rw same (mem-uniq_after last rest (mem-merge (str_eq-eq n last same) m))
  | inr new ↦ rw new (mem-cons_mono last (mem-uniq_after n rest) m)
]

-- Deduplicating keeps the members.
pub uniq-mem : (xs : List Bytes) {a : Bytes} → Memᴰ a (uniq xs) ↔ Memᴰ a xs
unfolding uniq
uniq-mem [] = (λ m. m, λ m. m)
uniq-mem (n ∷ rest) = (mem-cons_mono n (uniq_after-mem n rest), mem-uniq_after n rest)

-- After sorting, what is left is in strict order.
uniq_after-IsStrictlySorted :
    (last : Bytes) (xs : List Bytes)
    → IsSorted (last ∷ xs)
    → IsStrictlySorted (last ∷ uniq_after last xs)
unfolding uniq_after
uniq_after-IsStrictlySorted last [] h = (tt, tt)
uniq_after-IsStrictlySorted last (n ∷ rest) h = elim (Bool-cases (str_eq n last)) [
  | inl same ↦ rw same (uniq_after-IsStrictlySorted last rest (h.0.1, h.1.1))
  | inr new ↦
      let less : str_lt last n ≡ true =
        ground (arith, str_lt_total last n, str_eq_self last, h.0.0) in
      let inner = uniq_after-IsStrictlySorted n rest h.1 in
      rw new (
        (less, All-imp _ _ (uniq_after n rest) (λ y k. str_lt_trans last n y less k) inner.0),
        inner,
      )
]

pub uniq-IsStrictlySorted : (xs : List Bytes) → IsSorted xs → IsStrictlySorted (uniq xs)
unfolding uniq
uniq-IsStrictlySorted [] h = tt
uniq-IsStrictlySorted (n ∷ rest) h = uniq_after-IsStrictlySorted n rest h
