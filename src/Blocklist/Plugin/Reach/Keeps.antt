-- ===== src/Blocklist/Plugin/Reach/Keeps.antt =====
-- What a running Blocklist never takes back.
use homedns.Prelude.{◌≡◌, refl, ap, ◌∙◌, true}
use homedns.Prelude.Text.{StdLib}
use homedns.Dns.{DnsLib}
use homedns.Blocklist.Plugin.{Config, Blocklist}
use homedns.Blocklist.Plugin.WellFormed.{is_some}
use homedns.Blocklist.Plugin.Reach.{
  Running, Step, served, begin, round, cancel, keep, store, count, clear, announce, fire, raise,
  pass, Reach, here, step, SameView, serve_dns-SameView, reload_round-SameView,
}

-- Nothing is taken back: readiness and having a list.
pub record Keeps (b d : Blocklist) : Type 0 where
  pub stays_ready : b.ready ≡ true → d.ready ≡ true
  pub stays_loaded : is_some b.current ≡ true → is_some d.current ≡ true

same_Keeps : (b : Blocklist) → Keeps b b
same_Keeps b = record { stays_ready = λ e. e; stays_loaded = λ e. e }

SameView-Keeps : {b d : Blocklist} → SameView b d → Keeps b d
SameView-Keeps v = record {
  stays_ready = λ e. v.same_ready ∙ e;
  stays_loaded = λ e. ap is_some v.same_current ∙ e;
}

module _ (lib : DnsLib) (std : StdLib) (c : Config) where
  Step-Keeps : {s t : Running} → Step lib std c s t → Keeps s.shared t.shared
  Step-Keeps {s} (served server next w r) =
      SameView-Keeps (serve_dns-SameView lib std server next s.shared w r).0
  Step-Keeps {s} (round url urls merged a e live) =
      SameView-Keeps (reload_round-SameView std url a s.shared merged)
  Step-Keeps {s} (begin e) = same_Keeps s.shared
  Step-Keeps {s} (cancel url urls merged e) = same_Keeps s.shared
  Step-Keeps {s} (keep e) = same_Keeps s.shared
  Step-Keeps (store n merged e) = record { stays_ready = λ e. e; stays_loaded = λ e. refl }
  Step-Keeps (count e) = record { stays_ready = λ e. e; stays_loaded = λ e. e }
  Step-Keeps (clear e) = record { stays_ready = λ e. e; stays_loaded = λ e. e }
  Step-Keeps (announce e) = record { stays_ready = λ e. refl; stays_loaded = λ e. e }
  Step-Keeps (fire e) = record { stays_ready = λ e. refl; stays_loaded = λ e. e }
  Step-Keeps (raise e) = record { stays_ready = λ e. e; stays_loaded = λ e. e }
  Step-Keeps {s} (pass e) = same_Keeps s.shared

  -- Once ready the plugin stays ready, and once a list is loaded some list stays loaded, however
  -- queries, reloads and the timer interleave.
  pub Reach-Keeps : {s t : Running} → Reach lib std c s t → Keeps s.shared t.shared
  Reach-Keeps {s} here = same_Keeps s.shared
  Reach-Keeps (step r st) =
      let before = Reach-Keeps r in
      let last = Step-Keeps st in
      record {
        stays_ready = λ e. last.stays_ready (before.stays_ready e);
        stays_loaded = λ e. last.stays_loaded (before.stays_loaded e);
      }
