-- ===== src/Blocklist/Matcher/Filter.antt =====
-- What a list of names is for: the queries that it covers. The set that `newNameSet` builds is the
-- normal form of that.
use homedns.Prelude.{
  ◌≡◌, ◌≢◌, refl, sym, ap, ◌∙◌, ◌↔◌, Bool, true, false, List, [], ◌∷◌, Bytes, All-mem, mem-All,
}
use mathlib.Core.Quot
use mathlib.Core.Quot.{Quot, Quot-set}
use homedns.Blocklist.Matcher.{NameSet, covers, new_name_set}
use homedns.Blocklist.Matcher.Covers.{IsCovered, covers_iff}
use homedns.Blocklist.Matcher.Build.Prune.{
  covers-new_name_set, new_name_set-mem, new_name_set-IsStrictlySorted,
}
use homedns.Blocklist.Matcher.Build.Canonical.{HasNoEmpty, new_name_set-canonical}

-- Names without the empty one, which no source lists.
abbrev pub Names : Type 0
Names = (names : List Bytes) × HasNoEmpty names

-- Two lists cover the same queries.
abbrev pub SameCover : Names → Names → Type 0
SameCover a b = (q : Bytes) → IsCovered a.0 q ↔ IsCovered b.0 q

-- A list of names up to what it covers.
abbrev pub Filter : Type 0
Filter = Quot SameCover

iff-same : (a b : Bool) → ((a ≡ true) ↔ (b ≡ true)) → a ≡ b
iff-same true b h = sym (h.0 refl)
iff-same false true h = h.1 refl
iff-same false false h = refl

same_tests :
    (a b : Names)
    → SameCover a b
    → (q : Bytes) → covers (new_name_set a.0) q ≡ covers (new_name_set b.0) q
same_tests a b same q =
    let f = covers-new_name_set a.0 q in
    let g = covers-new_name_set b.0 q in
    iff-same _ _ (λ h. g.1 ((same q).0 (f.0 h)), λ h. f.1 ((same q).1 (g.0 h)))

tests_same :
    (a b : Names)
    → ((q : Bytes) → covers (new_name_set a.0) q ≡ covers (new_name_set b.0) q)
    → SameCover a b
tests_same a b same q =
    let f = covers-new_name_set a.0 q in
    let g = covers-new_name_set b.0 q in
    (λ h. g.0 (sym (same q) ∙ f.1 h), λ h. f.0 (same q ∙ g.1 h))

NameSet_set : IsSet NameSet
NameSet_set = hlevel

-- `newNameSet` on a filter.
pub build : Filter → NameSet
build =
    Quot.lift NameSet_set (λ (a : Names). new_name_set a.0)
      (λ a b same. new_name_set-canonical a.0 b.0 a.1 b.1 (same_tests a b same))

HasNoEmpty-prop : (names : List Bytes) → IsProp (HasNoEmpty names)
HasNoEmpty-prop [] = hlevel
HasNoEmpty-prop (n ∷ names) = let rest = HasNoEmpty-prop names in hlevel

build-HasNoEmpty : (x : Filter) → HasNoEmpty (build x)
unfolding build
build-HasNoEmpty =
    Quot.ind (λ x. HasNoEmpty-prop (build x))
      (λ (a : Names).
        All-mem (λ d. d ≢ []) (new_name_set a.0)
          (λ d m. mem-All (λ d. d ≢ []) a.1 (new_name_set-mem a.0 m)))

built_covers :
    (names : List Bytes) (q : Bytes) → IsCovered (new_name_set names) q ↔ IsCovered names q
built_covers names q =
    let own = covers_iff (new_name_set names) (new_name_set-IsStrictlySorted names) q in
    let given = covers-new_name_set names q in (λ h. given.0 (own.1 h), λ h. own.0 (given.1 h))

-- The list that a filter's set is.
pub normal : Filter → Names
normal x = (build x, build-HasNoEmpty x)

class-normal : (x : Filter) → ◌≡◌ {A = Filter} (Quot.mk (normal x)) x
unfolding build normal
class-normal = Quot.ind (λ x. Quot-set _ _) (λ (a : Names). Quot.sound (built_covers a.0))

Filter_set : IsSet Filter
Filter_set = Quot-set

same_covers-eq : (x y : Filter) → ((q : Bytes) → covers (build x) q ≡ covers (build y) q) → x ≡ y
unfolding build
same_covers-eq =
    Quot.ind (λ x. hlevel Filter_set)
      (λ (a : Names).
        Quot.ind (λ y. hlevel Filter_set) (λ (b : Names) same. Quot.sound (tests_same a b same)))

-- The set of a filter is its normal form: read as a list of names, it stands for the filter. Two
-- filters are the same exactly if their sets cover the same queries.
pub build-Filter :
    (x y : Filter)
    → (◌≡◌ {A = Filter} (Quot.mk (normal x)) x)
      × ((x ≡ y) ↔ ((q : Bytes) → covers (build x) q ≡ covers (build y) q))
build-Filter x y = (class-normal x, (λ e q. ap (λ t. covers (build t) q) e, same_covers-eq x y))
