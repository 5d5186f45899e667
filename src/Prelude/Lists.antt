-- ===== src/Prelude/Lists.antt =====
-- Lists measured and indexed by native numbers, under the library's names, and predicates on them.
use Prim.Native.Nat.{ℕ, zero, suc, ◌+◌, ◌-◌, ◌<◌, ◌≤◌}
use mathlib.Core.Path.{◌≡◌, refl, ap, sym}
use mathlib.Core.Logic.{◌⊎◌, inl, inr}
use mathlib.Core.List.{List, [], ◌∷◌, ◌++◌, Memᴰ}
use mathlib.Core.Bool.{Bool, true, false}
use mathlib.Core.Option.{Option, none, some}
use native.Mathlib.Omega.{arith}

module _ {ℓ} {A : Type ℓ} where
  abbrev pub length : List A → ℕ
  length [] = 0
  length (x ∷ xs) = suc (length xs)

  abbrev pub get_elem? : List A → ℕ → Option A
  get_elem? [] i = none
  get_elem? (x ∷ xs) zero = some x
  get_elem? (x ∷ xs) (suc i) = get_elem? xs i

  abbrev pub take : ℕ → List A → List A
  take zero xs = []
  take (suc n) [] = []
  take (suc n) (x ∷ xs) = x ∷ take n xs

  abbrev pub drop : ℕ → List A → List A
  drop zero xs = xs
  drop (suc n) [] = []
  drop (suc n) (x ∷ xs) = drop n xs

  abbrev pub is_empty : List A → Bool
  is_empty [] = true
  is_empty (x ∷ xs) = false

  pub is_empty-nil : (xs : List A) → is_empty xs ≡ true → xs ≡ []
  is_empty-nil [] h = refl
  is_empty-nil (x ∷ xs) h = ground arith

  pub length-append : (xs ys : List A) → length (xs ++ ys) ≡ length xs + length ys
  length-append [] ys = omega arith
  length-append (x ∷ xs) ys = omega (arith, length-append xs ys)

  pub length-drop : (n : ℕ) (xs : List A) → length (drop n xs) ≡ length xs - n
  length-drop zero xs = omega arith
  length-drop (suc n) [] = omega arith
  length-drop (suc n) (x ∷ xs) = omega (arith, length-drop n xs)

  pub length-take : (n : ℕ) (xs : List A) → n ≤ length xs → length (take n xs) ≡ n
  length-take zero xs h = refl
  length-take (suc n) [] h = absurd (omega arith)
  length-take (suc n) (x ∷ xs) h = omega (arith, length-take n xs)

  pub take-append-drop : (n : ℕ) (xs : List A) → take n xs ++ drop n xs ≡ xs
  take-append-drop zero xs = refl
  take-append-drop (suc n) [] = refl
  take-append-drop (suc n) (x ∷ xs) = ap (λ t. x ∷ t) (take-append-drop n xs)

-- A predicate at every element.
module _ {ℓ κ} {A : Type ℓ} (P : A → Type κ) where
  abbrev pub All : List A → Type κ
  All [] = Unit
  All (x ∷ xs) = P x × All xs

module _ {ℓ} {A : Type ℓ} where
  pub All-append {κ} : (P : A → Type κ) (xs ys : List A) → All P xs → All P ys → All P (xs ++ ys)
  All-append P [] ys h k = k
  All-append P (x ∷ xs) ys h k = (h.0, All-append P xs ys h.1 k)

  pub All-mem {κ} : (P : A → Type κ) (xs : List A) → ((x : A) → Memᴰ x xs → P x) → All P xs
  All-mem P [] h = tt
  All-mem P (x ∷ xs) h = (h x (Memᴰ.head refl), All-mem P xs (λ y m. h y (Memᴰ.tail m)))

  pub mem-cons_mono :
      {a : A} (x : A) {xs ys : List A} → (Memᴰ a xs → Memᴰ a ys) → Memᴰ a (x ∷ xs) → Memᴰ a (x ∷ ys)
  mem-cons_mono x f (Memᴰ.head e) = Memᴰ.head e
  mem-cons_mono x f (Memᴰ.tail m) = Memᴰ.tail (f m)

  pub mem-swap : {a x y : A} {xs : List A} → Memᴰ a (x ∷ y ∷ xs) → Memᴰ a (y ∷ x ∷ xs)
  mem-swap (Memᴰ.head e) = Memᴰ.tail (Memᴰ.head e)
  mem-swap (Memᴰ.tail (Memᴰ.head e)) = Memᴰ.head e
  mem-swap (Memᴰ.tail (Memᴰ.tail m)) = Memᴰ.tail (Memᴰ.tail m)

  pub mem-All {κ} : (P : A → Type κ) {a : A} {xs : List A} → All P xs → Memᴰ a xs → P a
  mem-All P h (Memᴰ.head e) = rw e h.0
  mem-All P h (Memᴰ.tail m) = mem-All P h.1 m

  -- A weaker predicate at every element.
  pub All-imp {κ ν} :
      (P : A → Type κ) (Q : A → Type ν) (xs : List A) → ((x : A) → P x → Q x) → All P xs → All Q xs
  All-imp P Q [] f h = tt
  All-imp P Q (x ∷ xs) f h = (f x h.0, All-imp P Q xs f h.1)

  mem-append_inv : {a : A} (xs ys : List A) → Memᴰ a (xs ++ ys) → Memᴰ a xs ⊎ Memᴰ a ys
  mem-append_inv [] ys m = inr m
  mem-append_inv (x ∷ xs) ys (Memᴰ.head e) = inl (Memᴰ.head e)
  mem-append_inv (x ∷ xs) ys (Memᴰ.tail m) = elim (mem-append_inv xs ys m) [
    | inl l ↦ inl (Memᴰ.tail l)
    | inr r ↦ inr r
  ]

  pub mem-append_left : {a : A} {xs : List A} (ys : List A) → Memᴰ a xs → Memᴰ a (xs ++ ys)
  mem-append_left ys (Memᴰ.head e) = Memᴰ.head e
  mem-append_left ys (Memᴰ.tail m) = Memᴰ.tail (mem-append_left ys m)

  pub mem-append_right : {a : A} (xs : List A) {ys : List A} → Memᴰ a ys → Memᴰ a (xs ++ ys)
  mem-append_right [] m = m
  mem-append_right (x ∷ xs) m = Memᴰ.tail (mem-append_right xs m)

  pub mem-get_elem? : (xs : List A) (i : ℕ) {a : A} → get_elem? xs i ≡ some a → Memᴰ a xs
  mem-get_elem? [] i e = ground arith
  mem-get_elem? (x ∷ xs) zero e = Memᴰ.head (ground arith)
  mem-get_elem? (x ∷ xs) (suc i) e = Memᴰ.tail (mem-get_elem? xs i e)

  pub get_elem?-mem :
      {a : A} {xs : List A} → Memᴰ a xs → (i : ℕ) × (i < length xs) × (get_elem? xs i ≡ some a)
  get_elem?-mem (Memᴰ.head e) = (0, omega arith, ap some (sym e))
  get_elem?-mem (Memᴰ.tail m) = let (i, h, e) = get_elem?-mem m in (suc i, omega arith, e)

  pub get_elem?-lt : (xs : List A) (i : ℕ) {a : A} → get_elem? xs i ≡ some a → i < length xs
  get_elem?-lt [] i e = ground arith
  get_elem?-lt (x ∷ xs) zero e = omega arith
  get_elem?-lt (x ∷ xs) (suc i) e = omega (arith, get_elem?-lt xs i e)

  pub get_elem?-ne-none : (xs : List A) (i : ℕ) → i < length xs → get_elem? xs i ≡ none → ⊥
  get_elem?-ne-none [] i h e = elim h [ ]
  get_elem?-ne-none (x ∷ xs) zero h e = ground arith
  get_elem?-ne-none (x ∷ xs) (suc i) h e = get_elem?-ne-none xs i (omega arith) e

  pub get_elem?-some : (xs : List A) (i : ℕ) → i < length xs → (a : A) × (get_elem? xs i ≡ some a)
  get_elem?-some [] i h = elim h [ ]
  get_elem?-some (x ∷ xs) zero h = (x, refl)
  get_elem?-some (x ∷ xs) (suc i) h = get_elem?-some xs i (omega arith)

-- A write out of bounds changes nothing.
module _ {ℓ} {A : Type ℓ} where
  abbrev pub set : List A → ℕ → A → List A
  set [] i v = []
  set (x ∷ xs) zero v = v ∷ xs
  set (x ∷ xs) (suc i) v = x ∷ set xs i v

  pub length-set : (xs : List A) (i : ℕ) (v : A) → length (set xs i v) ≡ length xs
  length-set [] i v = refl
  length-set (x ∷ xs) zero v = refl
  length-set (x ∷ xs) (suc i) v = ap suc (length-set xs i v)

  pub drop-get_elem? :
      (xs : List A) (i : ℕ) {a : A} → get_elem? xs i ≡ some a → drop i xs ≡ a ∷ drop (suc i) xs
  drop-get_elem? [] i e = ground arith
  drop-get_elem? (x ∷ xs) zero e = ground arith
  drop-get_elem? (x ∷ xs) (suc i) e = drop-get_elem? xs i e

  -- A write below `i` leaves what stands from `i` on.
  pub drop-set : (xs : List A) (k i : ℕ) (v : A) → k < i → drop i (set xs k v) ≡ drop i xs
  drop-set [] k i v h = refl
  drop-set (x ∷ xs) k zero v h = elim h [ ]
  drop-set (x ∷ xs) zero (suc i) v h = refl
  drop-set (x ∷ xs) (suc k) (suc i) v h = drop-set xs k i v (omega arith)

  -- A write just past a prefix extends the prefix.
  pub take-set :
      (xs : List A) (k : ℕ) (v : A)
      → k < length xs
      → take (suc k) (set xs k v) ≡ take k xs ++ v ∷ []
  take-set [] k v h = elim h [ ]
  take-set (x ∷ xs) zero v h = refl
  take-set (x ∷ xs) (suc k) v h = ap (λ t. x ∷ t) (take-set xs k v (omega arith))

  pub drop-length : (xs : List A) (i : ℕ) → length xs ≤ i → drop i xs ≡ []
  drop-length [] zero h = refl
  drop-length [] (suc i) h = refl
  drop-length (x ∷ xs) zero h = absurd (omega arith)
  drop-length (x ∷ xs) (suc i) h = drop-length xs i (omega arith)
