-- ===== src/Blocklist/Plugin/Reach.antt =====
-- The states that a Blocklist goes through while queries, the refresh goroutine and the fail-open
-- timer run at once. A step is one access that the others can see: the refresh goroutine alone uses
-- the downloads that a round of `reload` changes, and its end is four accesses.
use homedns.Prelude.{
  ℕ, ◌≡◌, ◌≢◌, refl, sym, ap, subst, ◌∙◌, Bool, true, false, List, [], ◌∷◌, Option, none, some,
  Bytes, All, arith, if_cases,
}
use homedns.Prelude.Text.{StdLib}
use homedns.Dns.{Msg, DnsLib, Next, Writer, Served}
use homedns.Blocklist.Matcher.{Matcher, new_name_set, size, blocked, normalize_query}
use homedns.Blocklist.Parse.Entry.{IsBlockable}
use homedns.Blocklist.Source.{Attempt}
use homedns.Blocklist.Plugin.{
  Config, Blocklist, new_blocklist, serve_dns, keep_stale, take_fresh, reload_round, reload_loop,
  publish, finish_reload, reload, fail_open_after_timeout,
}
use homedns.Blocklist.Plugin.WellFormed.{IsStored, IsGood, is_some, reload_round-IsMerging}
use homedns.Blocklist.Plugin.Startup.{Timer, waiting, swapped, finished}
pub mod Invariant
pub mod Calls
pub mod Keeps

-- Where the refresh goroutine stands: between two reloads, in the loop over the sources with the
-- ones that are left and the names merged so far, or behind one of the accesses that publish.
pub data Refresh : Type 0 where
  resting : Refresh
  merging : List Bytes → List Bytes → Refresh
  stored counted cleared : Refresh

pub record Running : Type 0 where
  pub shared : Blocklist
  pub refresh : Refresh
  pub timer : Timer

abbrev pub new_running : Running
new_running = record { shared = new_blocklist; refresh = resting; timer = waiting }

abbrev pub built : Config → List Bytes → Matcher
built c merged = record { block = new_name_set merged; allow = new_name_set c.allow }

module _ (lib : DnsLib) (std : StdLib) (c : Config) where
  pub data Step (s : Running) : Running → Type 0 where
    served :
        (server : Bytes) (next : Next) (w : Writer) (r : Msg)
        → Step s (record s { shared = (serve_dns lib std server next s.shared w r).0 })
    begin : s.refresh ≡ resting → Step s (record s { refresh = merging c.urls [] })
    round :
        (url : Bytes) (urls merged : List Bytes) (a : Attempt)
        → s.refresh ≡ merging (url ∷ urls) merged
        → a.cancelled ≡ false
        → Step s (record s {
          shared = (reload_round std url a s.shared merged).0;
          refresh = merging urls (reload_round std url a s.shared merged).1;
        })
    cancel :
        (url : Bytes) (urls merged : List Bytes)
        → s.refresh ≡ merging (url ∷ urls) merged
        → Step s (record s { refresh = resting })
    keep : s.refresh ≡ merging [] [] → Step s (record s { refresh = resting })
    store :
        (n : Bytes) (merged : List Bytes)
        → s.refresh ≡ merging [] (n ∷ merged)
        → Step s (record s {
          shared = record (s.shared) { current = some (built c (n ∷ merged)) };
          refresh = stored;
        })
    count :
        s.refresh ≡ stored
        → Step s (record s {
          shared = record (s.shared) { domains_total = size s.shared.current };
          refresh = counted;
        })
    clear :
        s.refresh ≡ counted
        → Step s (record s { shared = record (s.shared) { fail_open = false }; refresh = cleared })
    announce :
        s.refresh ≡ cleared
        → Step s (record s { shared = record (s.shared) { ready = true }; refresh = resting })
    fire :
        s.timer ≡ waiting
        → Step s (record s {
          shared = record (s.shared) { ready = true };
          timer = swapped s.shared.ready;
        })
    raise :
        s.timer ≡ swapped false
        → Step s (record s { shared = record (s.shared) { fail_open = true }; timer = finished })
    pass : s.timer ≡ swapped true → Step s (record s { timer = finished })

  pub data Reach (s : Running) : Running → Type 0 where
    here : Reach s s
    step : {t u : Running} → Reach s t → Step t u → Reach s u

-- What neither a query nor a round of a reload changes.
pub record SameView (b d : Blocklist) : Type 0 where
  pub same_current : d.current ≡ b.current
  pub same_ready : d.ready ≡ b.ready
  pub same_open : d.fail_open ≡ b.fail_open
  pub same_total : d.domains_total ≡ b.domains_total

pub serve_dns-SameView :
    (lib : DnsLib) (std : StdLib) (server : Bytes) (next : Next) (b : Blocklist) (w : Writer)
    (r : Msg)
    → SameView b (serve_dns lib std server next b w r).0
      × ((serve_dns lib std server next b w r).0.last_good ≡ b.last_good)
unfolding serve_dns
serve_dns-SameView lib std server next b w r = ground arith

pub reload_round-SameView :
    (std : StdLib) (url : Bytes) (a : Attempt) (b : Blocklist) (merged : List Bytes)
    → SameView b (reload_round std url a b merged).0
unfolding reload_round keep_stale take_fresh
reload_round-SameView std url a b merged = ground arith
