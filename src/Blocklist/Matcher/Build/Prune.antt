-- ===== src/Blocklist/Matcher/Build/Prune.antt =====
-- Pruning, and what `newNameSet` builds: the least sorted set that covers what the names cover.
use homedns.Prelude.{
  ℕ, zero, suc, ◌<◌, ◌≡◌, ◌≢◌, ap, ◌↔◌, inl, inr, true, false, List, [], ◌∷◌, ◌++◌, Memᴰ, Bytes,
  arith, length, drop, index_byte, index_byte-some, length-append, take, str_lt, Bool-cases,
  Option-cases, All-mem, mem-All,
}
use homedns.Blocklist.Matcher.{NameSet, covers, has_ancestor, sort_strings, prune, new_name_set}
use homedns.Blocklist.Matcher.Search.{IsStrictlySorted}
use homedns.Blocklist.Matcher.Covers.{
  IsWithin, IsCovered, IsWithin-trans, IsWithin-drop, length-le-IsWithin, covers_iff, first_dot,
}
use homedns.Blocklist.Matcher.Build.Sort.{sort_strings-mem, sort_strings-IsSorted}
use homedns.Blocklist.Matcher.Build.Dedup.{uniq, dedup-eq-uniq, uniq-mem, uniq-IsStrictlySorted}

prune-mem :
    (s : NameSet) (xs : List Bytes) {a : Bytes}
    → Memᴰ a (prune s xs)
    → Memᴰ a xs × (has_ancestor s a ≡ false)
unfolding prune
prune-mem s [] m = elim m [ ]
prune-mem s (n ∷ rest) {a} m = elim (Bool-cases (has_ancestor s n)) [
  | inl drops ↦
      let m' : Memᴰ a (prune s rest) = rw drops at m in
      (Memᴰ.tail (prune-mem s rest m').0, (prune-mem s rest m').1)
  | inr keeps ↦
      let m' : Memᴰ a (n ∷ prune s rest) = rw keeps at m in kept keeps m' (prune-mem s rest)
]
  where
    kept :
        has_ancestor s n ≡ false
        → Memᴰ a (n ∷ prune s rest)
        → (Memᴰ a (prune s rest) → Memᴰ a rest × (has_ancestor s a ≡ false))
        → Memᴰ a (n ∷ rest) × (has_ancestor s a ≡ false)
    kept keeps (Memᴰ.head e) ih = (Memᴰ.head e, rw e keeps)
    kept keeps (Memᴰ.tail l) ih = (Memᴰ.tail (ih l).0, (ih l).1)

mem-prune :
    (s : NameSet) (xs : List Bytes) {a : Bytes}
    → has_ancestor s a ≡ false
    → Memᴰ a xs
    → Memᴰ a (prune s xs)
unfolding prune
mem-prune s [] h m = elim m [ ]
mem-prune s (n ∷ rest) h (Memᴰ.head e) = rw (rw e at h) (Memᴰ.head e)
mem-prune s (n ∷ rest) h (Memᴰ.tail m) = elim (Bool-cases (has_ancestor s n)) [
  | inl drops ↦ rw drops (mem-prune s rest h m)
  | inr keeps ↦ rw keeps (Memᴰ.tail (mem-prune s rest h m))
]

prune-IsStrictlySorted :
    (s : NameSet) (xs : List Bytes) → IsStrictlySorted xs → IsStrictlySorted (prune s xs)
unfolding prune
prune-IsStrictlySorted s [] h = tt
prune-IsStrictlySorted s (n ∷ rest) h = elim (Bool-cases (has_ancestor s n)) [
  | inl drops ↦ rw drops (prune-IsStrictlySorted s rest h.1)
  | inr keeps ↦ rw keeps (
    All-mem _ (prune s rest) (λ y m. mem-All (λ y. str_lt n y ≡ true) h.0 (prune-mem s rest m).0),
    prune-IsStrictlySorted s rest h.1,
  )
]

module _ (s : NameSet) (sorted : IsStrictlySorted s) where
  -- An ancestor that the set covers is a shorter member above the name.
  has_ancestor-above :
      (d : Bytes)
      → has_ancestor s d ≡ true
      → (a : Bytes) × Memᴰ a s × (a ≢ []) × IsWithin d a × (length a < length d)
  unfolding has_ancestor
  has_ancestor-above d h = elim (Option-cases (index_byte d b'.')) [
    | inl out ↦ ground arith
    | inr (i, e) ↦
        let (a, m, ne, w) = (covers_iff s sorted (drop (suc i) d)).0 (rw (e, has_ancestor) at h) in
        let cut = ap length (index_byte-some b'.' d i e) in
        (
          a,
          m,
          ne,
          IsWithin-trans (IsWithin-drop d i e) w,
          omega
              (arith, length-le-IsWithin w, cut, length-append (take i d) (b'.' ∷ drop (suc i) d)),
        )
  ]

  -- Conversely, a name below a member has an ancestor in the set.
  has_ancestor-of_below : (p a : Bytes) → Memᴰ a s → a ≢ [] → has_ancestor s (p ++ b'.' ∷ a) ≡ true
  unfolding has_ancestor
  has_ancestor-of_below p a m ne =
      let (i, e, w) = first_dot p a in
      rw (e, has_ancestor) ((covers_iff s sorted (drop (suc i) (p ++ b'.' ∷ a))).1 (a, m, ne, w))

  -- From a member that covers the name, up to one that pruning keeps.
  climb :
      (k : ℕ) (q d : Bytes)
      → length d < k
      → Memᴰ d s
      → d ≢ []
      → IsWithin q d
      → IsCovered (prune s s) q
  climb zero q d h m ne w = elim h [ ]
  climb (suc k) q d h m ne w = elim (Bool-cases (has_ancestor s d)) [
    | inl has ↦
        let (a, ma, na, wa, shorter) = has_ancestor-above d has in
        climb k q a (omega arith) ma na (IsWithin-trans w wa)
    | inr top ↦ (d, mem-prune s s top m, ne, w)
  ]

-- The sorted set of distinct names that pruning starts from.
deduped_of : List Bytes → NameSet
deduped_of names = uniq (sort_strings names)

new_name_set-eq-prune :
    (names : List Bytes) → new_name_set names ≡ prune (deduped_of names) (deduped_of names)
unfolding new_name_set deduped_of
new_name_set-eq-prune names = rw (dedup-eq-uniq (sort_strings names))

deduped_of-mem : (names : List Bytes) {a : Bytes} → Memᴰ a (deduped_of names) ↔ Memᴰ a names
unfolding deduped_of
deduped_of-mem names = (
  λ m. (sort_strings-mem names).0 ((uniq-mem (sort_strings names)).0 m),
  λ m. (uniq-mem (sort_strings names)).1 ((sort_strings-mem names).1 m),
)

deduped_of-IsStrictlySorted : (names : List Bytes) → IsStrictlySorted (deduped_of names)
unfolding deduped_of
deduped_of-IsStrictlySorted names =
    uniq-IsStrictlySorted (sort_strings names) (sort_strings-IsSorted names)

-- `newNameSet` gives strings in strict order, so the binary search of `has` may be used on it.
pub new_name_set-IsStrictlySorted : (names : List Bytes) → IsStrictlySorted (new_name_set names)
new_name_set-IsStrictlySorted names = rw (new_name_set-eq-prune names) (
    prune-IsStrictlySorted (deduped_of names) (deduped_of names)
      (deduped_of-IsStrictlySorted names))

-- Every name of the set was given.
pub new_name_set-mem : (names : List Bytes) {a : Bytes} → Memᴰ a (new_name_set names) → Memᴰ a names
new_name_set-mem names {a} m =
    let m' : Memᴰ a (prune (deduped_of names) (deduped_of names)) =
      rw (new_name_set-eq-prune names) at m in
    (deduped_of-mem names).0 (prune-mem (deduped_of names) (deduped_of names) m').0

-- Pruning loses no coverage: the set covers exactly the names that lie within one of the given ones.
pub covers-new_name_set :
    (names : List Bytes) (q : Bytes) → (covers (new_name_set names) q ≡ true) ↔ IsCovered names q
covers-new_name_set names q =
    let iff = covers_iff (new_name_set names) (new_name_set-IsStrictlySorted names) q in
    (
      λ h. let (d, m, ne, w) = iff.0 h in (d, new_name_set-mem names m, ne, w),
      λ (d, m, ne, w). iff.1 (
          rw (new_name_set-eq-prune names) (
            climb (deduped_of names) (deduped_of-IsStrictlySorted names) (suc (length d)) q d
              (omega arith) ((deduped_of-mem names).1 m) ne w)),
    )

-- Nothing in the set is redundant: no member lies below another.
pub new_name_set-antichain :
    (names : List Bytes) (a b : Bytes)
    → Memᴰ a (new_name_set names)
    → Memᴰ b (new_name_set names)
    → b ≢ []
    → IsWithin a b
    → a ≡ b
new_name_set-antichain names a b ma mb ne (inl e) = e
new_name_set-antichain names a b ma mb ne (inr (p, e)) =
    let s = deduped_of names in
    let ma' : Memᴰ a (prune s s) = rw (new_name_set-eq-prune names) at ma in
    let mb' : Memᴰ b (prune s s) = rw (new_name_set-eq-prune names) at mb in
    let above =
      has_ancestor-of_below s (deduped_of-IsStrictlySorted names) p b (prune-mem s s mb').0 ne in
    let top = (prune-mem s s ma').1 in ground (arith, ap (has_ancestor s) e)
