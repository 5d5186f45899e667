-- ===== src/Blocklist/Matcher/Covers.antt =====
-- `covers` answers whether the name lies in a subtree of the set: matching on label boundaries.
use homedns.Prelude.{
  ℕ, zero, suc, ◌≤◌, ◌<◌, ◌≡◌, ◌≢◌, refl, sym, ap, ◌∙◌, ◌↔◌, ◌⊎◌, inl, inr, true, List, [], ◌∷◌,
  ◌++◌, append_assoc, some, Memᴰ, Bytes, arith, length, take, drop, index_byte, Bool-cases,
  Option-cases, index_byte-some, length-append, length-drop, ◌==◌,
}
use homedns.Blocklist.Matcher.{NameSet, has, covers_loop, covers}
use homedns.Blocklist.Matcher.Search.{IsStrictlySorted, has→mem, mem→has}

-- `q` is the domain `d`, or a name below it: `q` ends in a dot and `d`.
abbrev pub IsWithin : Bytes → Bytes → Type 0
IsWithin q d = (q ≡ d) ⊎ ((p : Bytes) × (q ≡ p ++ b'.' ∷ d))

-- A subtree of the set holds `q`. The empty name stands for no subtree.
abbrev pub IsCovered : List Bytes → Bytes → Type 0
IsCovered s q = (d : Bytes) × Memᴰ d s × (d ≢ []) × IsWithin q d

pub IsWithin-trans : {a b c : Bytes} → IsWithin a b → IsWithin b c → IsWithin a c
IsWithin-trans (inl e) (inl d) = inl (e ∙ d)
IsWithin-trans (inl e) (inr (p, d)) = inr (p, e ∙ d)
IsWithin-trans (inr (p, e)) (inl d) = inr (p, rw (← d) e)
IsWithin-trans {c} (inr (p, e)) (inr (o, d)) =
    inr (p ++ b'.' ∷ o, rw (e, d) (sym (append_assoc p (b'.' ∷ o) (b'.' ∷ c))))

-- A name below `d` is longer.
pub length-IsWithin : (p d : Bytes) → length d < length (p ++ b'.' ∷ d)
length-IsWithin p d = omega (arith, length-append p (b'.' ∷ d))

pub length-le-IsWithin : {q d : Bytes} → IsWithin q d → length d ≤ length q
length-le-IsWithin (inl e) = omega (arith, ap length e)
length-le-IsWithin {d} (inr (p, e)) = omega (arith, ap length e, length-IsWithin p d)

pub append-ne-nil : (p d : Bytes) → p ++ b'.' ∷ d ≢ []
append-ne-nil [] d e = cc
append-ne-nil (x ∷ p) d e = cc

-- The cut at the first dot of a name below `d` loses at most a part of what stands before `d`.
pub first_dot :
    (p d : Bytes)
    → (i : ℕ) × (index_byte (p ++ b'.' ∷ d) b'.' ≡ some i)
      × IsWithin (drop (suc i) (p ++ b'.' ∷ d)) d
unfolding index_byte
first_dot [] d = (0, refl, inl refl)
first_dot (x ∷ p) d = elim (Bool-cases (x == b'.')) [
  | inl dot ↦ (0, rw dot refl, inr (p, refl))
  | inr other ↦ let (i, e, w) = first_dot p d in (suc i, rw (other, e) refl, w)
]

pub IsWithin-drop :
    (name : Bytes) (i : ℕ) → index_byte name b'.' ≡ some i → IsWithin name (drop (suc i) name)
IsWithin-drop name i e = inr (take i name, index_byte-some b'.' name i e)

module _ (s : NameSet) (sorted : IsStrictlySorted s) where
  covers_loop→IsCovered : (k : ℕ) (name : Bytes) → covers_loop k s name ≡ true → IsCovered s name
  unfolding covers_loop
  covers_loop→IsCovered zero name h = cc
  covers_loop→IsCovered (suc k) [] h = cc
  covers_loop→IsCovered (suc k) (x ∷ xs) h = elim (Bool-cases (has s (x ∷ xs))) [
    | inl found ↦ (x ∷ xs, has→mem s sorted (x ∷ xs) found, λ e. cc, inl refl)
    | inr missing ↦ elim (Option-cases (index_byte (x ∷ xs) b'.')) [
      | inl out ↦ ground arith
      | inr (i, e) ↦
          let (d, m, ne, w) = covers_loop→IsCovered k (drop (suc i) (x ∷ xs)) (ground arith) in
          (d, m, ne, IsWithin-trans (IsWithin-drop (x ∷ xs) i e) w)
    ]
  ]

  IsCovered→covers_loop :
      (k : ℕ) (name d : Bytes)
      → length name < k
      → Memᴰ d s
      → d ≢ []
      → IsWithin name d
      → covers_loop k s name ≡ true
  unfolding covers_loop
  IsCovered→covers_loop zero name d h m ne w = elim h [ ]
  IsCovered→covers_loop (suc k) [] d h m ne (inl e) = absurd (ne (sym e))
  IsCovered→covers_loop (suc k) (x ∷ xs) d h m ne (inl e) =
      rw (mem→has s sorted (x ∷ xs) (rw e m), covers_loop) refl
  IsCovered→covers_loop (suc k) [] d h m ne (inr (p, e)) = absurd (append-ne-nil p d (sym e))
  IsCovered→covers_loop (suc k) (x ∷ xs) d h m ne (inr (p, e)) =
      elim (Bool-cases (has s (x ∷ xs))) [
        | inl found ↦ rw (found, covers_loop) refl
        | inr missing ↦
            let (i, at, w) = first_dot p d in
            let at' : index_byte (x ∷ xs) b'.' ≡ some i = rw e at in
            let w' : IsWithin (drop (suc i) (x ∷ xs)) d = rw e w in
            rw (missing, at', covers_loop)
              (IsCovered→covers_loop k (drop (suc i) (x ∷ xs)) d
                (omega (arith, length-drop (suc i) (x ∷ xs))) m ne w')
      ]

  -- `covers` holds exactly of the names that lie in a subtree of the set.
  pub covers_iff : (name : Bytes) → (covers s name ≡ true) ↔ IsCovered s name
  unfolding covers
  covers_iff name = (
    covers_loop→IsCovered (suc (length name)) name,
    λ (d, m, ne, w). IsCovered→covers_loop (suc (length name)) name d (omega arith) m ne w,
  )
