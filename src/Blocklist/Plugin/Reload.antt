-- ===== src/Blocklist/Plugin/Reload.antt =====
-- What a reload publishes: every name that a source delivers, now or at its last good fetch.
use homedns.Prelude.{
  ℕ, ◌<◌, ◌≡◌, ◌≢◌, refl, subst, ap, ◌∙◌, true, false, List, [], ◌∷◌, Option, none, some, Memᴰ,
  Bytes, arith, length, get_elem?, mem-All, index_byte,
}
use mathlib.Core.Option.{some-injective}
use homedns.Prelude.Text.{StdLib}
use homedns.Blocklist.Matcher.{blocked}
use homedns.Blocklist.Matcher.Covers.{IsWithin, IsCovered}
use homedns.Blocklist.Matcher.Blocked.{blocked_iff, snapshot}
use homedns.Blocklist.Parse.{contains_byte}
use homedns.Blocklist.Parse.Entry.{IsBlockable}
use homedns.Blocklist.Source.{Attempt, fetch}
use homedns.Blocklist.Plugin.{
  Config, Blocklist, lookup, reload_loop, publish, finish_reload, reload,
}
use homedns.Blocklist.Plugin.WellFormed.{IsStored, fetch-IsGood, lookup-IsGood}
use homedns.Blocklist.Plugin.Rounds.{loop_fresh, loop_stale, loop_returns}

finish_reload-some :
    (allow : List Bytes) (r : Blocklist × Option (List Bytes)) {out : List Bytes}
    → r.1 ≡ some out
    → finish_reload allow r ≡ publish allow out r.0
unfolding finish_reload
finish_reload-some allow (b, none) e = cc
finish_reload-some allow (b, some merged) e =
    ap (λ t. publish allow t b) (some-injective merged _ e)

publish-current :
    (allow out : List Bytes) (b : Blocklist) {d : Bytes}
    → Memᴰ d out
    → (publish allow out b).current ≡ snapshot out allow
unfolding publish
publish-current allow [] b m = elim m [ ]
publish-current allow (n ∷ out) b m = refl

pub IsBlockable-ne-nil : (std : StdLib) {name : Bytes} → IsBlockable std name → name ≢ []
unfolding contains_byte index_byte
IsBlockable-ne-nil std {name} b e =
    let h = subst (λ t. contains_byte t b'.' ≡ true) e b.has_dot in cc

-- A source that answers in this reload names `d`, or one that fails throughout it did so at its
-- last good fetch.
pub data Delivers (std : StdLib) (c : Config) (env : ℕ → Attempt) (b : Blocklist) (d : Bytes)
    : Type 0 where
  answered :
      (j : ℕ) (url : Bytes) (names : List Bytes)
      → get_elem? c.urls j ≡ some url
      → fetch std (env j) ≡ some names
      → Memᴰ d names
      → Delivers std c env b d
  remembered :
      (j : ℕ) (url : Bytes) (stale : List Bytes)
      → get_elem? c.urls j ≡ some url
      → ((k : ℕ) → get_elem? c.urls k ≡ some url → fetch std (env k) ≡ none)
      → lookup url b.last_good ≡ some stale
      → Memᴰ d stale
      → Delivers std c env b d

module _ (std : StdLib) (c : Config) (env : ℕ → Attempt) (b : Blocklist) where
  Delivers-mem :
      {d : Bytes} (out : List Bytes)
      → Delivers std c env b d
      → (reload_loop std c.urls env 0 b []).1 ≡ some out
      → Memᴰ d out
  Delivers-mem out (answered j url names at f m) e =
      loop_fresh std env c.urls 0 j b [] at
        (subst (λ t. fetch std (env t) ≡ some names) (omega arith) f) m e
  Delivers-mem out (remembered j url stale at f l m) e =
      loop_stale std env c.urls 0 j b [] at
        (λ k here. subst (λ t. fetch std (env t) ≡ none) (omega arith) (f k here)) l m e

  Delivers-IsBlockable : {d : Bytes} → IsStored std b → Delivers std c env b d → IsBlockable std d
  Delivers-IsBlockable w (answered j url names at f m) =
      mem-All (IsBlockable std) (fetch-IsGood std (env j) f).blockable m
  Delivers-IsBlockable w (remembered j url stale at f l m) =
      mem-All (IsBlockable std) (lookup-IsGood std url b.last_good w l).blockable m

  -- After a reload that is not cancelled, a delivered domain and every name below it is blocked,
  -- whatever the other sources do, unless an `allow` entry covers the name.
  pub reload-blocks :
      (q d : Bytes)
      → IsStored std b
      → ((k : ℕ) → k < length c.urls → (env k).cancelled ≡ false)
      → Delivers std c env b d
      → IsWithin q d
      → ¬ IsCovered c.allow q
      → blocked (reload std c env b).current q ≡ true
  unfolding reload
  reload-blocks q d w live del within free =
      let (out, e) =
        loop_returns std env c.urls 0 b []
          (λ k lt. subst (λ t. (env t).cancelled ≡ false) (omega arith) (live k lt)) in
      let m = Delivers-mem out del e in
      let shown =
        ap (λ (s : Blocklist). s.current)
          (finish_reload-some c.allow (reload_loop std c.urls env 0 b []) e)
        ∙ publish-current c.allow out (reload_loop std c.urls env 0 b []).0 m in
      ap (λ s. blocked s q) shown
      ∙ (blocked_iff out c.allow q).1
          ((d, m, IsBlockable-ne-nil std (Delivers-IsBlockable w del), within), free)
