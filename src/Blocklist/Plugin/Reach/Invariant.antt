-- ===== src/Blocklist/Plugin/Reach/Invariant.antt =====
-- What holds of a running Blocklist at every moment.
use homedns.Prelude.{
  ◌≡◌, ◌≢◌, refl, sym, ap, subst, ◌∙◌, ◌⊎◌, inl, inr, Bool, true, false, List, [], ◌∷◌, none, some,
  Bytes, All,
}
use homedns.Prelude.Text.{StdLib}
use homedns.Dns.{DnsLib}
use homedns.Blocklist.Matcher.{size}
use homedns.Blocklist.Parse.Entry.{IsBlockable}
use homedns.Blocklist.Plugin.{Config, Blocklist, new_blocklist, reload_round}
use homedns.Blocklist.Plugin.WellFormed.{IsStored, is_some, reload_round-IsMerging}
use homedns.Blocklist.Plugin.Startup.{waiting, finished}
use homedns.Blocklist.Plugin.Reach.{
  Refresh, resting, merging, stored, counted, cleared, Running, new_running, built, Step, served,
  begin, round, cancel, keep, store, count, clear, announce, fire, raise, pass, Reach, here, step,
  SameView, serve_dns-SameView, reload_round-SameView,
}

-- Not in the lines that publish a list.
abbrev pub is_settled : Refresh → Bool
is_settled resting = true
is_settled (merging urls merged) = true
is_settled stored = false
is_settled counted = false
is_settled cleared = false

module _ (lib : DnsLib) (std : StdLib) (c : Config) where
  -- What is stored and merged are blockable names, and what is loaded was built from such names and
  -- the `allow` entries. Outside the lines that publish, a loaded list makes the plugin ready and the
  -- gauge `domains_total` tells its size. Once the timer has fired the plugin is ready, and only then
  -- can the gauge `fail_open` be set.
  pub record IsWellFormed (s : Running) : Type 0 where
    pub downloads : IsStored std s.shared
    pub blockable :
        (urls merged : List Bytes) → s.refresh ≡ merging urls merged → All (IsBlockable std) merged
    pub loaded :
        (s.shared.current ≡ none)
        ⊎ ((merged : List Bytes) × All (IsBlockable std) merged
            × (s.shared.current ≡ some (built c merged)))
    pub loaded_ready :
        is_some s.shared.current ≡ true → is_settled s.refresh ≡ true → s.shared.ready ≡ true
    pub told : s.refresh ≢ stored → s.shared.domains_total ≡ size s.shared.current
    pub fired_ready : s.timer ≢ waiting → s.shared.ready ≡ true
    pub open_fired : s.shared.fail_open ≡ true → s.timer ≡ finished

  merging-merged : {us vs ms ns : List Bytes} → merging us ms ≡ merging vs ns → ms ≡ ns
  merging-merged e = cc

  -- The goroutine moves on, and nobody else sees a change.
  moves :
      {s : Running} (b : Blocklist) (f : Refresh)
      → SameView s.shared b
      → IsStored std b
      → is_settled s.refresh ≡ true
      → is_settled f ≡ true
      → ((urls merged : List Bytes) → f ≡ merging urls merged → All (IsBlockable std) merged)
      → IsWellFormed s
      → IsWellFormed (record s { shared = b; refresh = f })
  moves b f v downloads was is blockable w = record {
    downloads = downloads;
    blockable = blockable;
    loaded = rw v.same_current w.loaded;
    loaded_ready = λ e i. v.same_ready ∙ w.loaded_ready (ap is_some (sym v.same_current) ∙ e) was;
    told = λ ne. v.same_total ∙ w.told (λ e. cc) ∙ ap size (sym v.same_current);
    fired_ready = λ ne. v.same_ready ∙ w.fired_ready ne;
    open_fired = λ e. w.open_fired (sym v.same_open ∙ e);
  }

  same : (b : Blocklist) → SameView b b
  same b = record { same_current = refl; same_ready = refl; same_open = refl; same_total = refl }

  Step-IsWellFormed : {s t : Running} → Step lib std c s t → IsWellFormed s → IsWellFormed t
  Step-IsWellFormed {s} (served server next q r) w =
      let (v, good) = serve_dns-SameView lib std server next s.shared q r in
      record {
        downloads = rw good w.downloads;
        blockable = w.blockable;
        loaded = rw v.same_current w.loaded;
        loaded_ready = λ l i. v.same_ready ∙ w.loaded_ready (ap is_some (sym v.same_current) ∙ l) i;
        told = λ ne. v.same_total ∙ w.told ne ∙ ap size (sym v.same_current);
        fired_ready = λ ne. v.same_ready ∙ w.fired_ready ne;
        open_fired = λ h. w.open_fired (sym v.same_open ∙ h);
      }
  Step-IsWellFormed {s} (begin e) w =
      moves s.shared (merging c.urls []) (same s.shared) w.downloads (ap is_settled e) refl
        (λ urls merged h. subst (All (IsBlockable std)) (merging-merged h) tt) w
  Step-IsWellFormed {s} (round url urls merged a e live) w =
      let (downloads, names) =
        reload_round-IsMerging std url a s.shared merged
          (w.downloads, w.blockable (url ∷ urls) merged e) in
      moves (reload_round std url a s.shared merged).0
        (merging urls (reload_round std url a s.shared merged).1)
        (reload_round-SameView std url a s.shared merged) downloads (ap is_settled e) refl
        (λ vs ns h. subst (All (IsBlockable std)) (merging-merged h) names) w
  Step-IsWellFormed {s} (cancel url urls merged e) w =
      moves s.shared resting (same s.shared) w.downloads (ap is_settled e) refl
        (λ urls merged h. cc) w
  Step-IsWellFormed {s} (keep e) w =
      moves s.shared resting (same s.shared) w.downloads (ap is_settled e) refl
        (λ urls merged h. cc) w
  Step-IsWellFormed (store n merged e) w = record {
    downloads = w.downloads;
    blockable = λ us ns h. cc;
    loaded = inr (n ∷ merged, w.blockable [] (n ∷ merged) e, refl);
    loaded_ready = λ l i. cc;
    told = λ ne. absurd (ne refl);
    fired_ready = w.fired_ready;
    open_fired = w.open_fired;
  }
  Step-IsWellFormed (count e) w = record {
    downloads = w.downloads;
    blockable = λ us ns h. cc;
    loaded = w.loaded;
    loaded_ready = λ l i. cc;
    told = λ ne. refl;
    fired_ready = w.fired_ready;
    open_fired = w.open_fired;
  }
  Step-IsWellFormed (clear e) w = record {
    downloads = w.downloads;
    blockable = λ us ns h. cc;
    loaded = w.loaded;
    loaded_ready = λ l i. cc;
    told = λ ne. w.told (λ h. cc);
    fired_ready = w.fired_ready;
    open_fired = λ h. cc;
  }
  Step-IsWellFormed (announce e) w = record {
    downloads = w.downloads;
    blockable = λ us ns h. cc;
    loaded = w.loaded;
    loaded_ready = λ l i. refl;
    told = λ ne. w.told (λ h. cc);
    fired_ready = λ ne. refl;
    open_fired = w.open_fired;
  }
  Step-IsWellFormed (fire e) w = record {
    downloads = w.downloads;
    blockable = w.blockable;
    loaded = w.loaded;
    loaded_ready = λ l i. refl;
    told = w.told;
    fired_ready = λ ne. refl;
    open_fired = λ h. cc (w.open_fired h, e);
  }
  Step-IsWellFormed (raise e) w = record {
    downloads = w.downloads;
    blockable = w.blockable;
    loaded = w.loaded;
    loaded_ready = w.loaded_ready;
    told = w.told;
    fired_ready = λ ne. w.fired_ready (λ h. cc);
    open_fired = λ h. refl;
  }
  Step-IsWellFormed (pass e) w = record {
    downloads = w.downloads;
    blockable = w.blockable;
    loaded = w.loaded;
    loaded_ready = w.loaded_ready;
    told = w.told;
    fired_ready = λ ne. w.fired_ready (λ h. cc);
    open_fired = λ h. refl;
  }

  -- However queries, reloads and the timer interleave, in every state that the plugin reaches from
  -- its start: each remembered download is not empty, and it and what the reload has merged so far are
  -- blockable names; a loaded list was built from such names and the `allow` entries; outside the
  -- lines that publish a list, a loaded list makes the plugin ready, and behind the second of them the
  -- gauge `domains_total` tells its size; the plugin is ready once the timer has fired, and the gauge
  -- `fail_open` is set only after that.
  pub Reach-IsWellFormed : {s : Running} → Reach lib std c new_running s → IsWellFormed s
  unfolding new_blocklist size
  Reach-IsWellFormed here = record {
    downloads = tt;
    blockable = λ us ns h. cc;
    loaded = inl refl;
    loaded_ready = λ l i. cc;
    told = λ ne. refl;
    fired_ready = λ ne. absurd (ne refl);
    open_fired = λ h. cc;
  }
  Reach-IsWellFormed (step r st) = Step-IsWellFormed st (Reach-IsWellFormed r)
