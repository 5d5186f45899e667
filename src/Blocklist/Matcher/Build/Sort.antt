-- ===== src/Blocklist/Matcher/Build/Sort.antt =====
-- `sort.Strings` gives the same strings in order.
use homedns.Prelude.{
  ◌≡◌, inl, inr, false, List, [], ◌∷◌, Memᴰ, Bytes, All, arith, str_lt, str_lt_trans, str_lt_irrefl,
  str_lt_total, Bool-cases, All-mem, All-imp, mem-All, mem-swap, mem-cons_mono, ◌↔◌,
}
use homedns.Blocklist.Matcher.{insert_string, sort_strings}

-- No element is before one that it follows.
abbrev pub IsSorted : List Bytes → Type 0
IsSorted [] = Unit
IsSorted (x ∷ xs) = All (λ y. str_lt y x ≡ false) xs × IsSorted xs

-- What is not before `x` is not before what is before `x`.
pub not_lt_trans : (x y z : Bytes) → str_lt y x ≡ false → str_lt z y ≡ false → str_lt z x ≡ false
not_lt_trans x y z h k =
    ground (arith, str_lt_trans z x y, str_lt_total z y, str_lt_total y x, str_lt_trans y z x)

insert_string-mem :
    (x : Bytes) (ys : List Bytes) {a : Bytes} → Memᴰ a (insert_string x ys) → Memᴰ a (x ∷ ys)
unfolding insert_string
insert_string-mem x [] m = m
insert_string-mem x (y ∷ ys) {a} m = elim (Bool-cases (str_lt y x)) [
  | inl less ↦
      let m' : Memᴰ a (y ∷ insert_string x ys) = rw less at m in
      mem-swap (mem-cons_mono y (insert_string-mem x ys) m')
  | inr not_less ↦ let m' : Memᴰ a (x ∷ y ∷ ys) = rw not_less at m in m'
]

mem-insert_string :
    (x : Bytes) (ys : List Bytes) {a : Bytes} → Memᴰ a (x ∷ ys) → Memᴰ a (insert_string x ys)
unfolding insert_string
mem-insert_string x [] m = m
mem-insert_string x (y ∷ ys) m = elim (Bool-cases (str_lt y x)) [
  | inl less ↦ rw less (mem-cons_mono y (mem-insert_string x ys) (mem-swap m))
  | inr not_less ↦ rw not_less m
]

-- Sorting keeps the members.
pub sort_strings-mem : (xs : List Bytes) {a : Bytes} → Memᴰ a (sort_strings xs) ↔ Memᴰ a xs
unfolding sort_strings
sort_strings-mem [] = (λ m. m, λ m. m)
sort_strings-mem (x ∷ xs) = (
  λ m. mem-cons_mono x (sort_strings-mem xs).0 (insert_string-mem x (sort_strings xs) m),
  λ m. mem-insert_string x (sort_strings xs) (mem-cons_mono x (sort_strings-mem xs).1 m),
)

insert_string-IsSorted : (x : Bytes) (ys : List Bytes) → IsSorted ys → IsSorted (insert_string x ys)
unfolding insert_string
insert_string-IsSorted x [] h = (tt, tt)
insert_string-IsSorted x (y ∷ ys) h = elim (Bool-cases (str_lt y x)) [
  | inl less ↦ rw less (
    All-mem _ (insert_string x ys) (λ z m.
        mem-All (λ z. str_lt z y ≡ false) (ground (arith, str_lt_trans y x y, str_lt_irrefl y), h.0)
          (insert_string-mem x ys m)),
    insert_string-IsSorted x ys h.1,
  )
  | inr not_less ↦
      rw not_less ((not_less, All-imp _ _ ys (λ z k. not_lt_trans x y z not_less k) h.0), h)
]

-- Sorting sorts.
pub sort_strings-IsSorted : (xs : List Bytes) → IsSorted (sort_strings xs)
unfolding sort_strings
sort_strings-IsSorted [] = tt
sort_strings-IsSorted (x ∷ xs) =
    insert_string-IsSorted x (sort_strings xs) (sort_strings-IsSorted xs)
