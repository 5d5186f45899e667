-- ===== src/Blocklist/Plugin/Rounds.antt =====
-- The rounds of a reload: what each merges, and what the loop over them returns.
use homedns.Prelude.{
  ℕ, zero, suc, ◌+◌, ◌<◌, ◌≡◌, ◌≢◌, refl, subst, ap, ◌∙◌, inl, inr, false, List, [], ◌∷◌, ◌++◌,
  Option, none, some, Memᴰ, Bytes, arith, length, get_elem?, mem-append_left, mem-append_right,
  Option-cases, if_cases, str_eq-eq, str_eq_self,
}
use mathlib.Core.Option.{some-injective}
use homedns.Prelude.Text.{StdLib}
use homedns.Blocklist.Source.{Attempt, fetch}
use homedns.Blocklist.Plugin.{
  Blocklist, lookup, insert, keep_stale, take_fresh, reload_round, reload_loop,
}

lookup-insert_ne :
    (url u : Bytes) (names : List Bytes) (m : List (Bytes × List Bytes))
    → u ≢ url
    → lookup url (insert u names m) ≡ lookup url m
unfolding lookup insert
lookup-insert_ne url u names [] ne = ground (arith, str_eq-eq u url)
lookup-insert_ne url u names ((v, old) ∷ m) ne = ground (
  arith,
  str_eq-eq u url,
  str_eq-eq v u,
  str_eq-eq v url,
  str_eq_self url,
  lookup-insert_ne url u names m ne,
)

-- The state and the merged names that a round of a live reload hands to the next.
module _ (std : StdLib) (env : ℕ → Attempt) where
  -- The loop goes on after a round exactly if the context is live.
  loop_next :
      (url : Bytes) (urls : List Bytes) (i : ℕ) (b : Blocklist) (merged : List Bytes)
      {out : List Bytes}
      → (reload_loop std (url ∷ urls) env i b merged).1 ≡ some out
      → (reload_loop std urls env
          (suc i)
          (reload_round std url (env i) b merged).0
          (reload_round std url (env i) b merged).1).1
        ≡ some out
  unfolding reload_loop
  loop_next url urls i b merged e = ground arith

  -- The three ends of a round.
  round_fresh :
      (url : Bytes) (a : Attempt) (b : Blocklist) (merged names : List Bytes)
      → fetch std a ≡ some names
      → ((reload_round std url a b merged).1 ≡ merged ++ names)
        × ((reload_round std url a b merged).0.last_good ≡ insert url names b.last_good)
  unfolding reload_round take_fresh
  round_fresh url a b merged names e = rw (e, reload_round) (refl, refl)

  round_stale :
      (url : Bytes) (a : Attempt) (b : Blocklist) (merged stale : List Bytes)
      → fetch std a ≡ none
      → lookup url b.last_good ≡ some stale
      → ((reload_round std url a b merged).1 ≡ merged ++ stale)
        × ((reload_round std url a b merged).0.last_good ≡ b.last_good)
  unfolding reload_round keep_stale
  round_stale url a b merged stale e l = rw (e, reload_round, l, keep_stale) (refl, refl)

  round_missing :
      (url : Bytes) (a : Attempt) (b : Blocklist) (merged : List Bytes)
      → fetch std a ≡ none
      → lookup url b.last_good ≡ none
      → ((reload_round std url a b merged).1 ≡ merged)
        × ((reload_round std url a b merged).0.last_good ≡ b.last_good)
  unfolding reload_round keep_stale
  round_missing url a b merged e l = rw (e, reload_round, l, keep_stale) (refl, refl)

  round_keeps :
      (url : Bytes) (a : Attempt) (b : Blocklist) (merged : List Bytes) {d : Bytes}
      → Memᴰ d merged
      → Memᴰ d (reload_round std url a b merged).1
  round_keeps url a b merged m = elim (Option-cases (fetch std a)) [
    | inl failed ↦ elim (Option-cases (lookup url b.last_good)) [
      | inl new ↦ rw (round_missing url a b merged failed new).0 m
      | inr (stale, l) ↦ rw (round_stale url a b merged stale failed l).0 (mem-append_left stale m)
    ]
    | inr (names, e) ↦ rw (round_fresh url a b merged names e).0 (mem-append_left names m)
  ]

  -- A failed round leaves the stored downloads alone; a successful one stores under its own URL.
  round_lookup :
      (url other : Bytes) (a : Attempt) (b : Blocklist) (merged : List Bytes)
      → (other ≡ url → fetch std a ≡ none)
      → lookup url (reload_round std other a b merged).0.last_good ≡ lookup url b.last_good
  round_lookup url other a b merged fails = elim (Option-cases (fetch std a)) [
    | inl failed ↦ elim (Option-cases (lookup other b.last_good)) [
      | inl new ↦ ap (lookup url) (round_missing other a b merged failed new).1
      | inr (stale, l) ↦ ap (lookup url) (round_stale other a b merged stale failed l).1
    ]
    | inr (names, e) ↦
        ap (lookup url) (round_fresh other a b merged names e).1
        ∙ lookup-insert_ne url other names b.last_good (λ same. cc (fails same, e))
  ]

  loop_keeps :
      (urls : List Bytes) (i : ℕ) (b : Blocklist) (merged : List Bytes) {out : List Bytes}
      {d : Bytes}
      → Memᴰ d merged
      → (reload_loop std urls env i b merged).1 ≡ some out
      → Memᴰ d out
  unfolding reload_loop
  loop_keeps [] i b merged {out} {d} m e = subst (λ t. Memᴰ d t) (some-injective merged out e) m
  loop_keeps (url ∷ urls) i b merged m e =
      loop_keeps urls (suc i) (reload_round std url (env i) b merged).0
        (reload_round std url (env i) b merged).1 (round_keeps url (env i) b merged m)
        (loop_next url urls i b merged e)

  -- The names of a source that answers in this reload are merged.
  pub loop_fresh :
      (urls : List Bytes) (i j : ℕ) (b : Blocklist) (merged : List Bytes) {out names : List Bytes}
      {url d : Bytes}
      → get_elem? urls j ≡ some url
      → fetch std (env (i + j)) ≡ some names
      → Memᴰ d names
      → (reload_loop std urls env i b merged).1 ≡ some out
      → Memᴰ d out
  loop_fresh [] i j b merged at f m e = cc
  loop_fresh (u ∷ urls) i zero b merged {names} at f m e =
      let f' : fetch std (env i) ≡ some names =
        subst (λ t. fetch std (env t) ≡ some names) (omega arith) f in
      loop_keeps urls (suc i) (reload_round std u (env i) b merged).0
        (reload_round std u (env i) b merged).1
        (rw (round_fresh u (env i) b merged names f').0 (mem-append_right merged m))
        (loop_next u urls i b merged e)
  loop_fresh (u ∷ urls) i (suc j) b merged {names} at f m e =
      loop_fresh urls (suc i) j (reload_round std u (env i) b merged).0
        (reload_round std u (env i) b merged).1 at
        (subst (λ t. fetch std (env t) ≡ some names) (omega arith) f) m
        (loop_next u urls i b merged e)

  -- The names of the last good fetch of a source that fails throughout this reload are merged.
  pub loop_stale :
      (urls : List Bytes) (i j : ℕ) (b : Blocklist) (merged : List Bytes) {out stale : List Bytes}
      {url d : Bytes}
      → get_elem? urls j ≡ some url
      → ((k : ℕ) → get_elem? urls k ≡ some url → fetch std (env (i + k)) ≡ none)
      → lookup url b.last_good ≡ some stale
      → Memᴰ d stale
      → (reload_loop std urls env i b merged).1 ≡ some out
      → Memᴰ d out
  loop_stale [] i j b merged at f l m e = cc
  loop_stale (u ∷ urls) i zero b merged {stale} {url} at f l m e =
      let same : u ≡ url = some-injective u url at in
      let failed : fetch std (env i) ≡ none =
        subst (λ t. fetch std (env t) ≡ none) (omega arith) (f 0 at) in
      let l' : lookup u b.last_good ≡ some stale = rw same l in
      loop_keeps urls (suc i) (reload_round std u (env i) b merged).0
        (reload_round std u (env i) b merged).1
        (rw (round_stale u (env i) b merged stale failed l').0 (mem-append_right merged m))
        (loop_next u urls i b merged e)
  loop_stale (u ∷ urls) i (suc j) b merged {stale} {url} at f l m e =
      loop_stale urls (suc i) j (reload_round std u (env i) b merged).0
        (reload_round std u (env i) b merged).1 at
        (λ k here. subst (λ t. fetch std (env t) ≡ none) (omega arith) (f (suc k) here))
        (round_lookup url u (env i) b merged (failing (f 0)) ∙ l) m (loop_next u urls i b merged e)
    where
      failing :
          (get_elem? (u ∷ urls) 0 ≡ some url → fetch std (env (i + 0)) ≡ none)
          → u ≡ url
          → fetch std (env i) ≡ none
      failing g same = subst (λ t. fetch std (env t) ≡ none) (omega arith) (g (ap some same))

  pub loop_returns :
      (urls : List Bytes) (i : ℕ) (b : Blocklist) (merged : List Bytes)
      → ((k : ℕ) → k < length urls → (env (i + k)).cancelled ≡ false)
      → (out : List Bytes) × ((reload_loop std urls env i b merged).1 ≡ some out)
  unfolding reload_loop
  loop_returns [] i b merged live = (merged, refl)
  loop_returns (url ∷ urls) i b merged live =
      let next = reload_round std url (env i) b merged in
      let ih = loop_returns urls (suc i) next.0 next.1 (λ k lt.
        subst (λ t. (env t).cancelled ≡ false) (omega arith) (live (suc k) (omega arith))) in
      let now : (env i).cancelled ≡ false =
        subst (λ t. (env t).cancelled ≡ false) (omega arith) (live 0 (omega arith)) in
      if_cases (λ (r : Blocklist × Option (List Bytes)). (out : List Bytes) × (r.1 ≡ some out))
        (env i).cancelled (b, none) (reload_loop std urls env (suc i) next.0 next.1)
        (λ done. absurd (ground arith)) (λ _. ih)
