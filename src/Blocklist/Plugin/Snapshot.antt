-- ===== src/Blocklist/Plugin/Snapshot.antt =====
-- Whatever is loaded was built with the `allow` entries of the configuration.
use homedns.Prelude.{◌≡◌, ap, ◌⊎◌, inl, inr, false, List, Option, none, some, Bytes, Bool-cases}
use homedns.Prelude.Text.{StdLib}
use homedns.Dns.{Msg, DnsLib, Next, Writer}
use homedns.Blocklist.Matcher.{Matcher, blocked, normalize_query}
use homedns.Blocklist.Matcher.Covers.{IsCovered}
use homedns.Blocklist.Matcher.Blocked.{blocked_iff}
use homedns.Blocklist.Plugin.{Config, serve_dns}
use homedns.Blocklist.Plugin.Reach.{Running, new_running, built, Reach}
use homedns.Blocklist.Plugin.Reach.Invariant.{Reach-IsWellFormed}
use homedns.Blocklist.Plugin.Serve.{serve_dns-passes}

module _ (lib : DnsLib) (std : StdLib) (c : Config) where
  abbrev IsSnapshot : Option Matcher → Type 0
  IsSnapshot o = (o ≡ none) ⊎ ((merged : List Bytes) × (o ≡ some (built c merged)))

  Reach-IsSnapshot : {s : Running} → Reach lib std c new_running s → IsSnapshot s.shared.current
  Reach-IsSnapshot r = elim (Reach-IsWellFormed lib std c r).loaded [
    | inl empty ↦ inl empty
    | inr (merged, good, e) ↦ inr (merged, e)
  ]

  -- In every state that the plugin reaches, a name that an `allow` entry covers goes to the next
  -- plugin.
  pub Reach-passes :
      {s : Running} (server : Bytes) (next : Next) (w : Writer) (r : Msg)
      → Reach lib std c new_running s
      → IsCovered c.allow (normalize_query std (lib.request_name r))
      → (serve_dns lib std server next s.shared w r).1 ≡ next r
  unfolding blocked
  Reach-passes {s} server next w r reached covered =
      serve_dns-passes lib std server next s.shared w r (free (Reach-IsSnapshot reached))
    where
      free :
          IsSnapshot s.shared.current
          → blocked s.shared.current (normalize_query std (lib.request_name r)) ≡ false
      free (inl empty) = ap (λ o. blocked o (normalize_query std (lib.request_name r))) empty
      free (inr (merged, e)) =
          elim (Bool-cases (blocked s.shared.current (normalize_query std (lib.request_name r)))) [
            | inl hit ↦ absurd (
                (((blocked_iff merged c.allow (normalize_query std (lib.request_name r))).0
                    (rw e at hit)).1
                  covered))
            | inr miss ↦ miss
          ]
