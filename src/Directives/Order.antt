-- ===== src/Directives/Order.antt =====
-- The chain that `init` leaves: each plugin stands where the code's comments want it.
use homedns.Prelude.{
  ℕ, zero, suc, ◌≡◌, ◌≢◌, refl, sym, subst, ap, ◌∙◌, inl, inr, ◌⊎◌, ◌↔◌, true, false, List, [], ◌∷◌,
  ◌++◌, Option, none, some, Bytes, arith, take, drop, str_eq, str_eq-eq, str_eq_self, Bool-cases,
  Option-cases, if_cases, ◌-◌, if◌then◌else◌,
}
use mathlib.Core.Option
use homedns.Directives.{
  blocklist_directive, gateway_directive, peercache_directive, race_directive, cache_anchor,
  kubernetes_anchor, forward_anchor, registered, index_of, insert_before, init,
}

-- `b` follows `a` directly.
pub data Adjacent (a b : Bytes) : List Bytes → Type 0 where
  here : (ds : List Bytes) → Adjacent a b (a ∷ b ∷ ds)
  later : (d : Bytes) {ds : List Bytes} → Adjacent a b ds → Adjacent a b (d ∷ ds)

-- A list with a name before the first anchor.
placed : Bytes → Bytes → List Bytes → List Bytes
placed anchor name [] = []
placed anchor name (d ∷ ds) = if str_eq d anchor then name ∷ d ∷ ds else d ∷ placed anchor name ds

-- A list without a name.
pub without : Bytes → List Bytes → List Bytes
without name [] = []
without name (d ∷ ds) = if str_eq d name then without name ds else d ∷ without name ds

splice-eq-placed :
    (anchor name : Bytes) (ds : List Bytes) (i : ℕ)
    → index_of anchor ds ≡ some i
    → take i ds ++ name ∷ drop i ds ≡ placed anchor name ds
unfolding index_of placed
splice-eq-placed anchor name [] i e = ground arith
splice-eq-placed anchor name (d ∷ ds) zero e = ground arith
splice-eq-placed anchor name (d ∷ ds) (suc i) e = ground (arith, splice-eq-placed anchor name ds i)

bind_inv {ℓ} :
    {A B : Type ℓ} (m : Option A) (f : A → Option B) {b : B}
    → Option.bind m f ≡ some b
    → (a : A) × (m ≡ some a) × (f a ≡ some b)
unfolding Option.bind
bind_inv none f e = cc
bind_inv (some a) f e = (a, refl, e)

-- An insertion that does not panic.
insert_before-some :
    (anchor name : Bytes) (ds : List Bytes) {out : List Bytes}
    → insert_before anchor name ds ≡ some out
    → (registered name ds ≡ false)
      × ((i : ℕ) × (index_of anchor ds ≡ some i))
      × (out ≡ placed anchor name ds)
unfolding insert_before
insert_before-some anchor name ds {out} e = elim (Option-cases (index_of anchor ds)) [
  | inl missing ↦ ground arith
  | inr (i, at) ↦ (ground arith, (i, at), ground (arith, splice-eq-placed anchor name ds i at))
]

Adjacent-placed :
    (anchor name a b : Bytes) {ds : List Bytes}
    → b ≢ anchor
    → Adjacent a b ds
    → Adjacent a b (placed anchor name ds)
unfolding placed
Adjacent-placed anchor name a b ne (here ds) =
    if_cases (Adjacent a b) (str_eq a anchor) _ _ (λ _. later name (here ds))
      (λ _.
        if_cases (λ t. Adjacent a b (a ∷ t)) (str_eq b anchor) _ _
          (λ e. absurd (ne (str_eq-eq b anchor e))) (λ _. here (placed anchor name ds)))
Adjacent-placed anchor name a b ne (later d adj) =
    if_cases (Adjacent a b) (str_eq d anchor) _ _ (λ _. later name (later d adj))
      (λ _. later d (Adjacent-placed anchor name a b ne adj))

placed-Adjacent :
    (anchor name : Bytes) (ds : List Bytes) (i : ℕ)
    → index_of anchor ds ≡ some i
    → Adjacent name anchor (placed anchor name ds)
unfolding placed index_of
placed-Adjacent anchor name [] i e = ground arith
placed-Adjacent anchor name (d ∷ ds) i e =
    if_cases (Adjacent name anchor) (str_eq d anchor) _ _
      (λ h.
        subst (λ t. Adjacent name anchor (name ∷ t ∷ ds)) (sym (str_eq-eq d anchor h)) (here ds))
      (λ h. later d (placed-Adjacent anchor name ds (i - 1) (earlier d ds i e h)))
  where
    earlier :
        (d : Bytes) (ds : List Bytes) (i : ℕ)
        → index_of anchor (d ∷ ds) ≡ some i
        → str_eq d anchor ≡ false
        → index_of anchor ds ≡ some (i - 1)
    earlier d ds i e h = ground arith

without-registered :
    (name : Bytes) (ds : List Bytes) → registered name ds ≡ false → without name ds ≡ ds
unfolding without registered
without-registered name [] h = refl
without-registered name (d ∷ ds) h = ground (arith, without-registered name ds)

-- A second insertion before the same anchor takes the place directly before it.
placed_twice-Adjacent :
    (anchor one two : Bytes) (ds : List Bytes) (i : ℕ)
    → str_eq one anchor ≡ false
    → index_of anchor ds ≡ some i
    → Adjacent one two (placed anchor two (placed anchor one ds))
unfolding placed index_of
placed_twice-Adjacent anchor one two [] i ne e = ground arith
placed_twice-Adjacent anchor one two (d ∷ ds) i ne e = elim (Bool-cases (str_eq d anchor)) [
  | inl hit ↦ rw (hit, ne, hit) (here (d ∷ ds))
  | inr miss ↦
      rw (miss, miss) (later d (placed_twice-Adjacent anchor one two ds (i - 1) ne (ground arith)))
]

without-placed :
    (anchor name : Bytes) (ds : List Bytes)
    → registered name ds ≡ false
    → without name (placed anchor name ds) ≡ ds
unfolding placed without registered
without-placed anchor name [] h = refl
without-placed anchor name (d ∷ ds) h =
    ground (arith, without-placed anchor name ds, without-registered name ds, str_eq_self name)

insert-Adjacent :
    (anchor name : Bytes) (ds : List Bytes) {out : List Bytes}
    → insert_before anchor name ds ≡ some out
    → Adjacent name anchor out
insert-Adjacent anchor name ds e =
    let (new, (i, at), q) = insert_before-some anchor name ds e in
    subst (Adjacent name anchor) (sym q) (placed-Adjacent anchor name ds i at)

insert-keeps :
    {anchor a b : Bytes} (name : Bytes) {ds out : List Bytes}
    → insert_before anchor name ds ≡ some out
    → b ≢ anchor
    → Adjacent a b ds
    → Adjacent a b out
insert-keeps {anchor} {a} {b} name {ds} e ne adj =
    subst (Adjacent a b) (sym (insert_before-some anchor name ds e).2)
      (Adjacent-placed anchor name a b ne adj)

insert-without :
    (anchor name : Bytes) (ds : List Bytes) {out : List Bytes}
    → insert_before anchor name ds ≡ some out
    → without name out ≡ ds
insert-without anchor name ds e =
    let (new, at, q) = insert_before-some anchor name ds e in
    ap (without name) q ∙ without-placed anchor name ds new

-- `insertBefore` panics exactly if the name is registered already or the anchor is missing.
pub insert_before-none_iff :
    (anchor name : Bytes) (ds : List Bytes)
    → (insert_before anchor name ds ≡ none)
      ↔ ((registered name ds ≡ true) ⊎ (index_of anchor ds ≡ none))
unfolding insert_before
insert_before-none_iff anchor name ds = (
  λ e. panics e (Bool-cases (registered name ds)) (Option-cases (index_of anchor ds)),
  λ h. ground arith,
)
  where
    panics :
        insert_before anchor name ds ≡ none
        → (registered name ds ≡ true) ⊎ (registered name ds ≡ false)
        → (index_of anchor ds ≡ none) ⊎ ((i : ℕ) × (index_of anchor ds ≡ some i))
        → (registered name ds ≡ true) ⊎ (index_of anchor ds ≡ none)
    panics e (inl twice) at = inl twice
    panics e (inr new) (inl missing) = inr missing
    panics e (inr new) (inr (i, at)) = ground arith

-- Unless `init` panics, blocklist stands directly before cache, k8s_gateway directly before
-- kubernetes, and peercache, race and forward stand in this order with nothing between them. Taking
-- the four names out again gives back the chain of CoreDNS.
pub init-order :
    (ds : List Bytes) {out : List Bytes}
    → init ds ≡ some out
    → Adjacent blocklist_directive cache_anchor out
      × Adjacent gateway_directive kubernetes_anchor out
      × Adjacent peercache_directive race_directive out
      × Adjacent race_directive forward_anchor out
      × (without blocklist_directive
            (without gateway_directive (without peercache_directive (without race_directive out)))
          ≡ ds)
unfolding init str_eq
init-order ds {out} e =
    let (one, e1, r1) = bind_inv (insert_before cache_anchor blocklist_directive ds) _ e in
    let (two, e2, r2) = bind_inv (insert_before kubernetes_anchor gateway_directive one) _ r1 in
    let (three, e3, r3) = bind_inv (insert_before forward_anchor peercache_directive two) _ r2 in
    let (new1, at1, q1) = insert_before-some cache_anchor blocklist_directive ds e1 in
    let (new2, at2, q2) = insert_before-some kubernetes_anchor gateway_directive one e2 in
    let (new3, at3, q3) = insert_before-some forward_anchor peercache_directive two e3 in
    let (new4, at4, q4) = insert_before-some forward_anchor race_directive three r3 in
    let blocking =
      insert-keeps peercache_directive e3 (λ h. cc)
        (insert-keeps gateway_directive e2 (λ h. cc)
          (insert-Adjacent cache_anchor blocklist_directive ds e1)) in
    let gateway =
      insert-keeps peercache_directive e3 (λ h. cc)
        (insert-Adjacent kubernetes_anchor gateway_directive one e2) in
    (
      insert-keeps race_directive r3 (λ h. cc) blocking,
      insert-keeps race_directive r3 (λ h. cc) gateway,
      subst (Adjacent peercache_directive race_directive)
          (sym (q4 ∙ ap (placed forward_anchor race_directive) q3))
          (placed_twice-Adjacent forward_anchor peercache_directive race_directive two at3.0 refl
            at3.1),
      insert-Adjacent forward_anchor race_directive three r3,
      ap
            (λ t.
              without blocklist_directive
                (without gateway_directive (without peercache_directive t)))
            (insert-without forward_anchor race_directive three r3)
          ∙ ap (λ t. without blocklist_directive (without gateway_directive t))
              (insert-without forward_anchor peercache_directive two e3)
          ∙ ap (without blocklist_directive)
              (insert-without kubernetes_anchor gateway_directive one e2)
          ∙ insert-without cache_anchor blocklist_directive ds e1,
    )
