-- ===== src/Blocklist/Matcher.antt =====
-- plugin/blocklist/matcher.go: the immutable snapshot of the loaded lists and its lookup.
use homedns.Prelude.{
  ℕ, zero, suc, ◌+◌, ◌/◌, Bool, true, false, not, List, [], ◌∷◌, ◌++◌, Option, none, some, Bytes,
  length, get_elem?, take, drop, set, ◌==◌, ◌||◌, str_eq, str_lt, index_byte, ltb, if◌then◌else◌,
  is_empty,
}
use homedns.Prelude.{codes}
use homedns.Prelude.Text.{StdLib, to_lower, trim_suffix}
pub mod Search
pub mod Covers
pub mod Build
pub mod Blocked
pub mod Filter

-- A sorted, deduplicated set of domain subtrees.
abbrev pub NameSet : Type 0
NameSet = List Bytes

unfoldable pub normalize_query : StdLib → Bytes → Bytes
unfolding to_lower trim_suffix
normalize_query std qname = trim_suffix (to_lower std qname) (codes ".")

-- The loop of sort.Search, on fuel: the least index from `i` up to `j` at which `f` holds.
unfoldable pub search_loop : ℕ → (ℕ → Bool) → ℕ → ℕ → ℕ
search_loop zero f i j = i
search_loop (suc k) f i j = elim (ltb i j) [
  | false ↦ i
  | true ↦ elim (f ((i + j) / 2)) [
    | false ↦ search_loop k f (suc ((i + j) / 2)) j
    | true ↦ search_loop k f i ((i + j) / 2)
  ]
]

-- `a[h] >= x`. The search asks only inside the slice.
unfoldable pub at_least : List Bytes → Bytes → ℕ → Bool
at_least a x h = elim (get_elem? a h) [ none ↦ true | some v ↦ not (str_lt v x) ]

-- sort.SearchStrings.
unfoldable pub search_strings : List Bytes → Bytes → ℕ
unfolding search_loop at_least
search_strings a x = search_loop (length a) (at_least a x) 0 (length a)

unfoldable pub has : NameSet → Bytes → Bool
unfolding search_strings
has s name = elim (get_elem? s (search_strings s name)) [ none ↦ false | some v ↦ str_eq v name ]

-- The loop of `covers`, on fuel: a round drops a label and its dot.
unfoldable pub covers_loop : ℕ → NameSet → Bytes → Bool
unfolding has
covers_loop zero s name = false
covers_loop (suc k) s name = elim (is_empty name) [
  | true ↦ false
  | false ↦ elim (has s name) [
    | true ↦ true
    | false ↦ elim (index_byte name b'.') [
      | none ↦ false
      | some i ↦ covers_loop k s (drop (suc i) name)
    ]
  ]
]

unfoldable pub covers : NameSet → Bytes → Bool
unfolding covers_loop
covers s name = covers_loop (suc (length name)) s name

unfoldable pub has_ancestor : NameSet → Bytes → Bool
unfolding covers
has_ancestor s name = elim (index_byte name b'.') [
  | none ↦ false
  | some i ↦ covers s (drop (suc i) name)
]

-- sort.Strings. A total order has one sorted arrangement, so any sort gives this one.
unfoldable pub insert_string : Bytes → List Bytes → List Bytes
insert_string x [] = x ∷ []
insert_string x (y ∷ ys) = if str_lt y x then y ∷ insert_string x ys else x ∷ y ∷ ys

unfoldable pub sort_strings : List Bytes → List Bytes
unfolding insert_string
sort_strings [] = []
sort_strings (x ∷ xs) = insert_string x (sort_strings xs)

-- A round of the deduplicating loop. `deduped` shares the array of `sorted`: its elements are
-- the first `kept` cells, and the loop reads cell `i` of the array as it is by then.
unfoldable pub dedup_loop : ℕ → List Bytes → ℕ → ℕ → Bytes → List Bytes
dedup_loop zero cells i kept last = take kept cells
dedup_loop (suc rounds) cells i kept last = elim (get_elem? cells i) [
  | none ↦ take kept cells
  | some n ↦ elim (i == 0 || not (str_eq n last)) [
    | true ↦ dedup_loop rounds (set cells kept n) (suc i) (suc kept) n
    | false ↦ dedup_loop rounds cells (suc i) kept last
  ]
]

unfoldable pub dedup : List Bytes → List Bytes
unfolding dedup_loop
dedup sorted = dedup_loop (length sorted) sorted 0 0 []

-- The last loop: what `hasAncestor` finds in the whole deduplicated set is left out.
unfoldable pub prune : NameSet → List Bytes → List Bytes
unfolding has_ancestor
prune deduped [] = []
prune deduped (n ∷ rest) =
    if has_ancestor deduped n then prune deduped rest else n ∷ prune deduped rest

unfoldable pub new_name_set : List Bytes → NameSet
unfolding sort_strings dedup prune
new_name_set names = let deduped = dedup (sort_strings names) in prune deduped deduped

pub record Matcher : Type 0 where
  pub block : NameSet
  pub allow : NameSet

-- `none` is the nil pointer.
unfoldable pub blocked : Option Matcher → Bytes → Bool
unfolding covers
blocked none qname = false
blocked (some m) qname =
    if is_empty qname then false else if covers m.allow qname then false else covers m.block qname

unfoldable pub size : Option Matcher → ℕ
size none = 0
size (some m) = length m.block
