-- ===== src/Blocklist/Plugin.antt =====
-- plugin/blocklist/blocklist.go: the handler, the reload and the fail-open timer.
use homedns.Prelude.{
  ℕ, zero, suc, ◌+◌, Bool, true, false, not, List, [], ◌∷◌, ◌++◌, Option, none, some, Bytes, ◌==◌,
  if◌then◌else◌, length, is_empty, str_eq,
}
use homedns.Prelude.Text.{StdLib}
use homedns.Dns.{
  Msg, new_msg, DnsLib, Served, Writer, Next, write_reply, rcode_name_error, Metric, inc, set_to,
}
use homedns.Blocklist.Matcher.{Matcher, new_name_set, blocked, size, normalize_query}
use homedns.Blocklist.Source.{Attempt, fetch}
pub mod WellFormed
pub mod Reach
pub mod Rounds
pub mod Reload
pub mod Serve
pub mod Snapshot
pub mod Lifecycle
pub mod Startup

pub record Config : Type 0 where
  pub urls : List Bytes
  pub allow : List Bytes

-- The fields that the goroutines of a Blocklist share, and the metrics.
pub record Blocklist : Type 0 where
  pub current : Option Matcher
  pub ready : Bool
  pub last_good : List (Bytes × List Bytes)
  pub fail_open : Bool
  pub domains_total : ℕ
  pub source_failures : Metric
  pub source_domains : Metric
  pub blocked_count : Metric
  pub allowed_count : Metric

-- What `parseConfig` makes, before the first reload.
unfoldable pub new_blocklist : Blocklist
new_blocklist = record {
  current = none;
  ready = false;
  last_good = [];
  fail_open = false;
  domains_total = 0;
  source_failures = λ _. 0;
  source_domains = λ _. 0;
  blocked_count = λ _. 0;
  allowed_count = λ _. 0;
}

module _ (lib : DnsLib) (std : StdLib) where
  -- The NXDOMAIN reply.
  unfoldable pub name_error : Msg → Msg
  name_error r = record (lib.set_rcode new_msg r rcode_name_error) { authoritative = true }

  -- `server` is the label that metrics.WithServer gives.
  unfoldable pub serve_dns : Bytes → Next → Blocklist → Writer → Msg → Blocklist × Served
  unfolding write_reply
  serve_dns server next b w r =
      if blocked b.current (normalize_query std (lib.request_name r))
      then (
        record b { blocked_count = inc server b.blocked_count },
        write_reply w (name_error r) rcode_name_error none,
      )
      else (record b { allowed_count = inc server b.allowed_count }, next r)

-- `b.lastGood[url]`.
unfoldable pub lookup : Bytes → List (Bytes × List Bytes) → Option (List Bytes)
lookup url [] = none
lookup url ((u, names) ∷ m) = if str_eq u url then some names else lookup url m

-- `b.lastGood[url] = names`.
unfoldable pub insert : Bytes → List Bytes → List (Bytes × List Bytes) → List (Bytes × List Bytes)
insert url names [] = (url, names) ∷ []
insert url names ((u, old) ∷ m) =
    if str_eq u url then (url, names) ∷ m else (u, old) ∷ insert url names m

-- A round after a failed fetch: the names of the last good one are appended, if there are any.
unfoldable pub keep_stale : Bytes → Blocklist → List Bytes → Blocklist × List Bytes
unfolding lookup
keep_stale url b merged =
    let b' = record b { source_failures = inc url b.source_failures } in
    elim (lookup url b.last_good) [ none ↦ (b', merged) | some stale ↦ (b', merged ++ stale) ]

-- A round after a successful one.
unfoldable pub take_fresh : Bytes → List Bytes → Blocklist → List Bytes → Blocklist × List Bytes
unfolding insert
take_fresh url names b merged = (
  record b {
    last_good = insert url names b.last_good;
    source_domains = set_to url (length names) b.source_domains;
  },
  merged ++ names,
)

unfoldable pub reload_round :
    StdLib → Bytes → Attempt → Blocklist → List Bytes → Blocklist × List Bytes
reload_round std url a b merged = elim (fetch std a) [
  | none ↦ keep_stale url b merged
  | some names ↦ take_fresh url names b merged
]

-- The loop over the sources. `none` for the merged names is the early return when the context is
-- done. `env i` is what happens in round `i`.
unfoldable pub reload_loop :
    StdLib
    → List Bytes
    → (ℕ → Attempt)
    → ℕ
    → Blocklist
    → List Bytes
    → Blocklist × Option (List Bytes)
reload_loop std [] env i b merged = (b, some merged)
reload_loop std (url ∷ urls) env i b merged =
    let next = reload_round std url (env i) b merged in
    let rest = reload_loop std urls env (suc i) next.0 next.1 in
    if (env i).cancelled then (b, none) else rest

-- The end of a reload, which publishes what was merged.
unfoldable pub publish : List Bytes → List Bytes → Blocklist → Blocklist
publish allow [] b = b
publish allow (n ∷ merged) b =
    let m = some (record { block = new_name_set (n ∷ merged); allow = new_name_set allow }) in
    record b { current = m; domains_total = size m; fail_open = false; ready = true }

unfoldable pub finish_reload : List Bytes → Blocklist × Option (List Bytes) → Blocklist
unfolding publish
finish_reload allow (b, none) = b
finish_reload allow (b, some merged) = publish allow merged b

unfoldable pub reload : StdLib → Config → (ℕ → Attempt) → Blocklist → Blocklist
reload std c env b = finish_reload c.allow (reload_loop std c.urls env 0 b [])

-- `failOpenAfterTimeout` when its timer fires.
unfoldable pub fail_open_after_timeout : Blocklist → Blocklist
fail_open_after_timeout b = if not b.ready then record b { ready = true; fail_open = true } else b
