-- ===== src/Tests/Blocklist.antt =====
-- plugin/blocklist/blocklist.go through a start with one failing source.
use homedns.Prelude.{
  ℕ, zero, suc, ◌<◌, ◌≡◌, refl, inr, true, false, List, [], ◌∷◌, none, some, Memᴰ, Bytes, codes,
  length,
}
use homedns.Dns.{Msg, Next, Err, other, rcode_name_error, rcode_server_failure}
use homedns.Blocklist.Matcher.{Matcher, normalize_query}
use homedns.Blocklist.Matcher.Covers.{IsWithin, IsCovered}
use homedns.Blocklist.Source.{Attempt}
use homedns.Blocklist.Plugin.{Config, new_blocklist, name_error, serve_dns, reload}
use homedns.Blocklist.Plugin.WellFormed.{IsStored}
use homedns.Blocklist.Plugin.Reach
use homedns.Blocklist.Plugin.Reach.{Running, new_running, resting}
use homedns.Blocklist.Plugin.Reach.Calls.{calls-Reach}
use homedns.Blocklist.Plugin.Reach.Invariant.{IsWellFormed, Reach-IsWellFormed}
use homedns.Blocklist.Plugin.Reach.Keeps.{Keeps, Reach-Keeps}
use homedns.Blocklist.Plugin.Reload.{Delivers, answered}
use homedns.Blocklist.Plugin.Serve.{IsNameError, reload-serve_dns}
use homedns.Blocklist.Plugin.Startup
use homedns.Blocklist.Plugin.Startup.{Machine, idle, waiting, swapped, IsQuiet, stale_gauge}
use homedns.Tests.World.{std, lib, query}
use homedns.Tests.Parse.{parsing, list}

abbrev pub config : Config
config = record { urls = codes "http://a/" ∷ codes "http://b/" ∷ []; allow = [] }

-- The first source cannot be reached, and the second one delivers the list.
abbrev pub env : ℕ → Attempt
env zero = record { cancelled = false; request_ok = true; answer = none }
env (suc i) = record {
  cancelled = false;
  request_ok = true;
  answer = some (record { status = 200; body = record { content = list; broken = false } });
}

abbrev next : Next
next r = record { written = []; rcode = rcode_server_failure; err = some (other 1) }

live : (k : ℕ) → k < length config.urls → (env k).cancelled ≡ false
live zero h = refl
live (suc k) h = refl

fetched : List Bytes
fetched = codes "ads.example.com" ∷ codes "b.example.com" ∷ codes "tracker.net" ∷ []

delivered : Delivers std config env new_blocklist (codes "tracker.net")
unfolding parsing fetched
delivered =
    answered 1 (codes "http://b/") fetched refl refl (Memᴰ.tail (Memᴰ.tail (Memᴰ.head refl)))

not_allowed : (q : Bytes) → ¬ IsCovered config.allow q
not_allowed q (d, m, ne, w) = elim m [ ]

abbrev r : Msg
r = query (codes "X.tracker.net.")

below_tracker : IsWithin (normalize_query std (lib.request_name r)) (codes "tracker.net")
unfolding parsing
below_tracker = inr (codes "x", refl)

new-IsStored : IsStored std new_blocklist
unfolding new_blocklist
new-IsStored = tt

reload-serve_dns_example :
    IsNameError lib std r (name_error lib std r)
    × ((serve_dns lib std (codes "dns://:53") next (reload std config env new_blocklist) none r).1
        ≡ record { written = name_error lib std r ∷ []; rcode = rcode_name_error; err = none })
    × ((e : Err)
        → (serve_dns lib std
            (codes "dns://:53")
            next
            (reload std config env new_blocklist)
            (some e)
            r).1
          ≡ record { written = []; rcode = rcode_server_failure; err = some e })
reload-serve_dns_example =
    reload-serve_dns lib std config env new_blocklist (codes "dns://:53") (codes "tracker.net") next
      r new-IsStored live delivered below_tracker
      (not_allowed (normalize_query std (lib.request_name r)))

-- A whole reload, and then the timer.
abbrev loaded : Running
loaded = record { shared = reload std config env new_blocklist; refresh = resting; timer = waiting }

to_loaded : Reach.Reach lib std config new_running loaded
to_loaded = (calls-Reach lib std config env new_blocklist waiting).0

Reach-IsWellFormed_example : IsWellFormed lib std config loaded
Reach-IsWellFormed_example = Reach-IsWellFormed lib std config to_loaded

Reach-Keeps_example : Keeps new_blocklist loaded.shared
Reach-Keeps_example = Reach-Keeps lib std config to_loaded

abbrev start : Machine
start = record { shared = new_blocklist; refresh = idle; timer = waiting }

abbrev fired : Machine
fired = record start {
  shared = record (start.shared) { ready = true };
  timer = swapped start.shared.ready;
}

abbrev m : Matcher
m = record { block = codes "tracker.net" ∷ []; allow = [] }

stale_gauge_example :
    (d : Machine) × Startup.Reach start d
    × IsQuiet d
    × (d.shared.current ≡ some m)
    × (d.shared.fail_open ≡ true)
unfolding new_blocklist
stale_gauge_example = stale_gauge start m refl refl refl
