-- ===== src/Blocklist/Matcher/Build/Canonical.antt =====
-- The set that `newNameSet` builds depends on nothing but the names that it covers.
use homedns.Prelude.{
  ◌≡◌, ◌≢◌, refl, sym, subst, ap, ◌∙◌, inl, inr, true, List, [], ◌∷◌, Memᴰ, Bytes, All, arith,
  length, str_lt, str_lt_trans, str_lt_irrefl, mem-All,
}
use homedns.Blocklist.Matcher.{covers, new_name_set}
use homedns.Blocklist.Matcher.Search.{IsStrictlySorted}
use homedns.Blocklist.Matcher.Covers.{IsWithin, IsWithin-trans, length-IsWithin}
use homedns.Blocklist.Matcher.Build.Prune.{
  new_name_set-IsStrictlySorted, new_name_set-mem, new_name_set-antichain,
}
use homedns.Blocklist.Matcher.Covers.{covers_iff}

abbrev pub HasNoEmpty : List Bytes → Type 0
HasNoEmpty names = All (λ d. d ≢ []) names

-- The heads of two strictly sorted lists with the same members agree.
heads-eq :
    (x y : Bytes) (xs ys : List Bytes)
    → IsStrictlySorted (x ∷ xs)
    → IsStrictlySorted (y ∷ ys)
    → Memᴰ x (y ∷ ys)
    → Memᴰ y (x ∷ xs)
    → x ≡ y
heads-eq x y xs ys h k (Memᴰ.head e) m = e
heads-eq x y xs ys h k (Memᴰ.tail l) (Memᴰ.head e) = sym e
heads-eq x y xs ys h k (Memᴰ.tail l) (Memᴰ.tail m) = ground (
  arith,
  mem-All (λ z. str_lt y z ≡ true) k.0 l,
  mem-All (λ z. str_lt x z ≡ true) h.0 m,
  str_lt_trans x y x,
  str_lt_irrefl x,
)

-- A member other than the head is in the tail.
mem-tail :
    {a x y : Bytes} {xs ys : List Bytes}
    → All (λ z. str_lt x z ≡ true) xs
    → x ≡ y
    → Memᴰ a xs
    → Memᴰ a (y ∷ ys)
    → Memᴰ a ys
mem-tail {a} {x} h e m (Memᴰ.head d) =
    ground (arith, mem-All (λ z. str_lt x z ≡ true) h m, str_lt_irrefl x)
mem-tail h e m (Memᴰ.tail l) = l

IsStrictlySorted-unique :
    (xs ys : List Bytes)
    → IsStrictlySorted xs
    → IsStrictlySorted ys
    → ((a : Bytes) → Memᴰ a xs → Memᴰ a ys)
    → ((a : Bytes) → Memᴰ a ys → Memᴰ a xs)
    → xs ≡ ys
IsStrictlySorted-unique [] [] h k f g = refl
IsStrictlySorted-unique [] (y ∷ ys) h k f g = elim (g y (Memᴰ.head refl)) [ ]
IsStrictlySorted-unique (x ∷ xs) [] h k f g = elim (f x (Memᴰ.head refl)) [ ]
IsStrictlySorted-unique (x ∷ xs) (y ∷ ys) h k f g =
    let e = heads-eq x y xs ys h k (f x (Memᴰ.head refl)) (g y (Memᴰ.head refl)) in
    let rest =
      IsStrictlySorted-unique xs ys h.1 k.1 (λ a m. mem-tail h.0 e m (f a (Memᴰ.tail m)))
        (λ a m. mem-tail k.0 (sym e) m (g a (Memᴰ.tail m))) in
    rw (e, rest)

IsWithin-antisym : {a b : Bytes} → IsWithin a b → IsWithin b a → a ≡ b
IsWithin-antisym (inl e) w = e
IsWithin-antisym (inr (p, e)) (inl d) = sym d
IsWithin-antisym {a} {b} (inr (p, e)) (inr (o, d)) =
    ground (arith, ap length e, ap length d, length-IsWithin p b, length-IsWithin o a)

-- A member of the one set is a member of any other that covers the same names.
module _ (names others : List Bytes) (full : HasNoEmpty names) (full' : HasNoEmpty others)
    (same : (q : Bytes) → covers (new_name_set names) q ≡ covers (new_name_set others) q) where
  member-of_same : (a : Bytes) → Memᴰ a (new_name_set names) → Memᴰ a (new_name_set others)
  member-of_same a m =
      let one = covers_iff (new_name_set names) (new_name_set-IsStrictlySorted names) in
      let two = covers_iff (new_name_set others) (new_name_set-IsStrictlySorted others) in
      let ne = mem-All (λ d. d ≢ []) full (new_name_set-mem names m) in
      let (b, mb, nb, wb) = (two a).0 (sym (same a) ∙ (one a).1 (a, m, ne, inl refl)) in
      let (c, mc, nc, wc) = (one b).0 (same b ∙ (two b).1 (b, mb, nb, inl refl)) in
      let ac = new_name_set-antichain names a c m mc nc (IsWithin-trans wb wc) in
      let e : a ≡ b = IsWithin-antisym wb (subst (λ t. IsWithin b t) (sym ac) wc) in rw e mb

-- Two lists that cover the same names give the same set, whatever their order and repetitions.
pub new_name_set-canonical :
    (names others : List Bytes)
    → HasNoEmpty names
    → HasNoEmpty others
    → ((q : Bytes) → covers (new_name_set names) q ≡ covers (new_name_set others) q)
    → new_name_set names ≡ new_name_set others
new_name_set-canonical names others full full' same =
    IsStrictlySorted-unique (new_name_set names) (new_name_set others)
      (new_name_set-IsStrictlySorted names) (new_name_set-IsStrictlySorted others)
      (member-of_same names others full full' same)
      (member-of_same others names full' full (λ q. sym (same q)))
