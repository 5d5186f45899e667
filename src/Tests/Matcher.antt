-- ===== src/Tests/Matcher.antt =====
-- plugin/blocklist/matcher.go at small sets.
use homedns.Prelude.{
  ◌≡◌, refl, ◌↔◌, true, false, List, [], ◌∷◌, Bytes, codes, str_lt, str_eq, index_byte,
}
use homedns.Blocklist.Matcher.{
  has, covers, has_ancestor, sort_strings, dedup, prune, new_name_set, blocked,
}
use homedns.Blocklist.Matcher.Search.{IsStrictlySorted}
use homedns.Blocklist.Matcher.Covers.{IsCovered}
use homedns.Blocklist.Matcher.Build.Prune.{covers-new_name_set}
use mathlib.Core.Quot
use homedns.Blocklist.Matcher.Build.Canonical.{HasNoEmpty}
use homedns.Blocklist.Matcher.Filter.{Filter, build, normal, build-Filter}
use homedns.Blocklist.Matcher.Blocked.{snapshot, blocked_iff}

-- All that a run of the matcher computes with.
matching : Unit {0}
unfolding has covers has_ancestor sort_strings dedup prune new_name_set blocked str_lt str_eq
    index_byte
matching = tt

abbrev names : List Bytes
names =
    codes "tracker.net"
    ∷ codes "ads.example.com"
    ∷ codes "a.ads.example.com"
    ∷ codes "tracker.net"
    ∷ []

abbrev built : List Bytes
built = codes "ads.example.com" ∷ codes "tracker.net" ∷ []

-- Duplicates go, and so does the name below another one.
build_names : new_name_set names ≡ built
unfolding matching
build_names = refl

label_boundary : covers built (codes "mytracker.net") ≡ false
unfolding matching
label_boundary = refl

built-IsStrictlySorted : IsStrictlySorted built
unfolding str_lt
built-IsStrictlySorted = ((refl, tt), (tt, tt))

covers-new_name_set_example :
    (covers (new_name_set names) (codes "b.a.ads.example.com") ≡ true)
    ↔ IsCovered names (codes "b.a.ads.example.com")
covers-new_name_set_example = covers-new_name_set names (codes "b.a.ads.example.com")

names-HasNoEmpty : HasNoEmpty names
names-HasNoEmpty = (λ e. cc, (λ e. cc, (λ e. cc, (λ e. cc, tt))))

built-HasNoEmpty : HasNoEmpty built
built-HasNoEmpty = (λ e. cc, (λ e. cc, tt))

blocked_iff_example :
    (blocked (snapshot names (codes "ok.tracker.net" ∷ [])) (codes "x.tracker.net") ≡ true) ↔ (
      IsCovered names (codes "x.tracker.net")
      × ¬ IsCovered (codes "ok.tracker.net" ∷ []) (codes "x.tracker.net"))
blocked_iff_example = blocked_iff names (codes "ok.tracker.net" ∷ []) (codes "x.tracker.net")

-- The filters of the list and of its set.
abbrev given : Filter
given = Quot.mk (names, names-HasNoEmpty)

abbrev pruned : Filter
pruned = Quot.mk (built, built-HasNoEmpty)

build-Filter_example :
    (◌≡◌ {A = Filter} (Quot.mk (normal given)) given)
    × ((given ≡ pruned) ↔ ((q : Bytes) → covers (build given) q ≡ covers (build pruned) q))
build-Filter_example = build-Filter given pruned
