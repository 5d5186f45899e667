-- ===== src/Blocklist/Plugin/WellFormed.antt =====
-- What the refresh goroutine keeps of the downloads, and that every round of a reload keeps it.
use homedns.Prelude.{
  ◌≡◌, ◌≢◌, refl, inl, inr, Bool, true, false, not, List, [], ◌∷◌, Option, none, some, Bytes, All,
  All-append, arith, Bool-cases, Option-cases, str_eq, ◌==◌, subst,
}
use mathlib.Core.Option.{some-injective}
use homedns.Prelude.Text.{StdLib}
use homedns.Blocklist.Matcher.{Matcher}
use homedns.Blocklist.Parse.{parse_list}
use homedns.Blocklist.Parse.Entry.{IsBlockable}
use homedns.Blocklist.Parse.Output.{parse_list-IsBlockable}
use homedns.Blocklist.Source.{Attempt, Response, read_response, non_empty, fetch, status_ok}
use homedns.Blocklist.Plugin.{Blocklist, lookup, insert, keep_stale, take_fresh, reload_round}

-- A download that counts: it names something, and only blockable domains.
pub record IsGood (std : StdLib) (names : List Bytes) : Type 0 where
  pub not_empty : names ≢ []
  pub blockable : All (IsBlockable std) names

abbrev pub is_some : Option Matcher → Bool
is_some none = false
is_some (some m) = true

-- Every stored download counts.
abbrev pub IsStored : StdLib → Blocklist → Type 0
IsStored std b = All (λ (e : Bytes × List Bytes). IsGood std e.1) b.last_good

non_empty-IsGood :
    (std : StdLib) (parsed : Option (List Bytes)) {names : List Bytes}
    → ((ns : List Bytes) → parsed ≡ some ns → All (IsBlockable std) ns)
    → non_empty parsed ≡ some names
    → IsGood std names
unfolding non_empty
non_empty-IsGood std none f h = cc
non_empty-IsGood std (some []) f h = cc
non_empty-IsGood std (some (n ∷ ns)) {names} f h =
    subst (IsGood std) (some-injective (n ∷ ns) names h)
      (record { not_empty = λ e. cc; blockable = f (n ∷ ns) refl })

read_response-IsGood :
    (std : StdLib) (answer : Option Response) {names : List Bytes}
    → read_response std answer ≡ some names
    → IsGood std names
unfolding read_response
read_response-IsGood std none h = cc
read_response-IsGood std (some resp) h = elim (Bool-cases (not (resp.status == status_ok))) [
  | inl refused ↦ ground arith
  | inr ok ↦
      non_empty-IsGood std (parse_list std resp.body)
        (λ ns e. parse_list-IsBlockable std resp.body e) (rw ok at h)
]

-- A fetch that succeeds yields a download that counts.
pub fetch-IsGood :
    (std : StdLib) (a : Attempt) {names : List Bytes} → fetch std a ≡ some names → IsGood std names
unfolding fetch
fetch-IsGood std a h = elim (Bool-cases a.request_ok) [
  | inl ok ↦ read_response-IsGood std a.answer (rw ok at h)
  | inr bad ↦ ground arith
]

insert-IsGood :
    (std : StdLib) (url : Bytes) (names : List Bytes) (m : List (Bytes × List Bytes))
    → IsGood std names
    → All (λ (e : Bytes × List Bytes). IsGood std e.1) m
    → All (λ (e : Bytes × List Bytes). IsGood std e.1) (insert url names m)
unfolding insert
insert-IsGood std url names [] g h = (g, tt)
insert-IsGood std url names ((u, old) ∷ m) g h = elim (Bool-cases (str_eq u url)) [
  | inl same ↦ rw same (g, h.1)
  | inr other ↦ rw other (h.0, insert-IsGood std url names m g h.1)
]

pub lookup-IsGood :
    (std : StdLib) (url : Bytes) (m : List (Bytes × List Bytes)) {names : List Bytes}
    → All (λ (e : Bytes × List Bytes). IsGood std e.1) m
    → lookup url m ≡ some names
    → IsGood std names
unfolding lookup
lookup-IsGood std url [] h e = cc
lookup-IsGood std url ((u, old) ∷ m) {names} h e = elim (Bool-cases (str_eq u url)) [
  | inl same ↦ subst (IsGood std) (some-injective old names (rw same at e)) h.0
  | inr other ↦ lookup-IsGood std url m h.1 (rw other at e)
]

-- What a round of a reload, or the whole loop, hands on.
abbrev pub IsMerging : StdLib → Blocklist × List Bytes → Type 0
IsMerging std (b, merged) = IsStored std b × All (IsBlockable std) merged

keep_stale-IsMerging :
    (std : StdLib) (url : Bytes) (b : Blocklist) (merged : List Bytes)
    → IsMerging std (b, merged)
    → IsMerging std (keep_stale url b merged)
unfolding keep_stale
keep_stale-IsMerging std url b merged (w, h) = elim (Option-cases (lookup url b.last_good)) [
  | inl new ↦ rw (new, keep_stale) (w, h)
  | inr (stale, e) ↦
      rw (e, keep_stale)
        (
          w,
          All-append (IsBlockable std) merged stale h
              (lookup-IsGood std url b.last_good w e).blockable,
        )
]

take_fresh-IsMerging :
    (std : StdLib) (url : Bytes) (names : List Bytes) (b : Blocklist) (merged : List Bytes)
    → IsGood std names
    → IsMerging std (b, merged)
    → IsMerging std (take_fresh url names b merged)
unfolding take_fresh
take_fresh-IsMerging std url names b merged good (w, h) = (
  insert-IsGood std url names b.last_good good w,
  All-append (IsBlockable std) merged names h good.blockable,
)

pub reload_round-IsMerging :
    (std : StdLib) (url : Bytes) (a : Attempt) (b : Blocklist) (merged : List Bytes)
    → IsMerging std (b, merged)
    → IsMerging std (reload_round std url a b merged)
unfolding reload_round
reload_round-IsMerging std url a b merged h = elim (Option-cases (fetch std a)) [
  | inl failed ↦ rw (failed, reload_round) (keep_stale-IsMerging std url b merged h)
  | inr (names, e) ↦
      rw (e, reload_round) (take_fresh-IsMerging std url names b merged (fetch-IsGood std a e) h)
]
