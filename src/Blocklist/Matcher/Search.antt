-- ===== src/Blocklist/Matcher/Search.antt =====
-- The binary search of `has` finds exactly the members of a sorted set.
use homedns.Prelude.{
  ℕ, zero, suc, ◌+◌, ◌-◌, ◌/◌, ◌≤◌, ◌<◌, ◌≡◌, ◌↔◌, Bool, true, false, List, [], ◌∷◌, some, Memᴰ,
  Bytes, All, arith, length, get_elem?, str_lt, str_eq-eq, str_eq_self, str_lt_trans, str_lt_irrefl,
  Option-cases, inl, inr, mem-get_elem?, get_elem?-mem, get_elem?-some, get_elem?-lt,
}
use homedns.Blocklist.Matcher.{NameSet, search_loop, at_least, search_strings, has}

-- `r` splits the range from `i` up to `j` into indices at which `f` fails and an index that meets it.
pub record IsLeast (f : ℕ → Bool) (i j r : ℕ) : Type 0 where
  pub from : i ≤ r
  pub upto : r ≤ j
  pub fails : (h : ℕ) → i ≤ h → h < r → f h ≡ false
  pub meets : r < j → f r ≡ true

search_loop-IsLeast :
    (f : ℕ → Bool)
    → ((h k : ℕ) → h ≤ k → f h ≡ true → f k ≡ true)
    → (fuel i j : ℕ) → j - i ≤ fuel
    → i ≤ j
    → IsLeast f i j (search_loop fuel f i j)
unfolding search_loop
search_loop-IsLeast f mono zero i j enough le = ground arith
search_loop-IsLeast f mono (suc k) i j enough le = grind (
  arith,
  search_loop-IsLeast f mono k (suc ((i + j) / 2)) j,
  search_loop-IsLeast f mono k i ((i + j) / 2),
  mono,
)

-- Every element is before all that follow it.
abbrev pub IsStrictlySorted : List Bytes → Type 0
IsStrictlySorted [] = Unit
IsStrictlySorted (x ∷ xs) = All (λ y. str_lt x y ≡ true) xs × IsStrictlySorted xs

All-get_elem? {ℓ} :
    {A : Type ℓ} (P : A → Type 0) (xs : List A) (i : ℕ) {a : A}
    → All P xs
    → get_elem? xs i ≡ some a
    → P a
All-get_elem? P [] i h e = ground arith
All-get_elem? P (x ∷ xs) zero h e = ground arith
All-get_elem? P (x ∷ xs) (suc i) h e = All-get_elem? P xs i h.1 e

IsStrictlySorted-lt :
    (s : List Bytes) (i j : ℕ) {a b : Bytes}
    → IsStrictlySorted s
    → i < j
    → get_elem? s i ≡ some a
    → get_elem? s j ≡ some b
    → str_lt a b ≡ true
IsStrictlySorted-lt [] i j h lt e d = ground arith
IsStrictlySorted-lt (x ∷ s) zero zero h lt e d = absurd (omega arith)
IsStrictlySorted-lt (x ∷ s) zero (suc j) h lt e d =
    ground (arith, All-get_elem? (λ y. str_lt x y ≡ true) s j h.0 d)
IsStrictlySorted-lt (x ∷ s) (suc i) zero h lt e d = absurd (omega arith)
IsStrictlySorted-lt (x ∷ s) (suc i) (suc j) h lt e d =
    IsStrictlySorted-lt s i j h.1 (omega arith) e d

module _ (s : NameSet) (sorted : IsStrictlySorted s) where
  at_least_mono : (x : Bytes) (h k : ℕ) → h ≤ k → at_least s x h ≡ true → at_least s x k ≡ true
  unfolding at_least
  at_least_mono x h k le t = elim (Option-cases (get_elem? s k)) [
    | inl out ↦ ground arith
    | inr (v, e) ↦
        let (u, d) = get_elem?-some s h (omega (arith, get_elem?-lt s k e)) in
        ground (arith, IsStrictlySorted-lt s h k {a = u} {b = v} sorted, str_lt_trans u v x)
  ]

  search_strings-IsLeast : (x : Bytes) → IsLeast (at_least s x) 0 (length s) (search_strings s x)
  unfolding search_strings
  search_strings-IsLeast x =
      search_loop-IsLeast (at_least s x) (at_least_mono x) (length s) 0 (length s) (omega arith)
        (omega arith)

  pub has→mem : (name : Bytes) → has s name ≡ true → Memᴰ name s
  unfolding has
  has→mem name h = elim (Option-cases (get_elem? s (search_strings s name))) [
    | inl out ↦ ground arith
    | inr (v, e) ↦ mem-get_elem? s (search_strings s name) (ground (arith, str_eq-eq v name))
  ]

  pub mem→has : (name : Bytes) → Memᴰ name s → has s name ≡ true
  unfolding has at_least
  mem→has name m =
      let (k, h, e) = get_elem?-mem m in
      let least = search_strings-IsLeast name in
      let r = search_strings s name in
      let (u, d) =
        get_elem?-some s r (ground (arith, least.fails k, least.upto, str_lt_irrefl name)) in
      ground (
        arith,
        least.fails k,
        least.meets,
        least.upto,
        str_lt_irrefl name,
        str_eq_self name,
        IsStrictlySorted-lt s r k {a = u} {b = name} sorted,
      )

  -- The binary search of `has` finds a name exactly if the sorted set holds it.
  pub has_iff : (name : Bytes) → (has s name ≡ true) ↔ Memᴰ name s
  has_iff name = (has→mem name, mem→has name)
