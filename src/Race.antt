-- ===== src/Race.antt =====
-- plugin/race/race.go: every upstream is asked at once, and the first useful reply wins.
use homedns.Prelude.{
  ℕ, zero, suc, ◌+◌, Bool, true, false, not, List, [], ◌∷◌, Option, none, some, Bytes,
  if◌then◌else◌, length,
}
use mathlib.Core.Option
use homedns.Dns.{
  Msg, Err, DnsLib, Served, Writer, Next, write_reply, useful, rcode_success, rcode_server_failure,
  cached_closed, eof, epipe, econnreset, wrapped, no_answer, mismatch, plugin_error,
}
pub mod Exchange
pub mod Dispatch
pub mod Order
pub mod Setup
pub mod Lifecycle
pub mod Legs
pub mod Answers

abbrev pub max_idle_conns : ℕ
max_idle_conns = 8

abbrev pub max_connect_attempts : ℕ
max_connect_attempts = max_idle_conns + 2

-- What Proxy.Connect returns: a reply, or an error.
pub data Connect : Type 0 where
  reply : Msg → Connect
  failure : Err → Connect

-- `staleConn` of an error that is not nil: errors.Is looks through wrapped errors.
unfoldable pub stale_err : Err → Bool
stale_err cached_closed = true
stale_err eof = true
stale_err epipe = true
stale_err econnreset = true
stale_err (wrapped e) = stale_err e
stale_err _ = false

unfoldable pub stale_conn : Connect → Bool
unfolding stale_err
stale_conn (reply m) = false
stale_conn (failure e) = stale_err e

pub record LegResult : Type 0 where
  pub to : Bytes
  pub msg : Option Msg
  pub err : Option Err

-- The labels of `legFailures`.
pub data Reason : Type 0 where
  reason_error reason_mismatch reason_unusable : Reason

-- The result of a leg, its entry in `legFailures`, and what it added to `staleConns`.
pub record Leg : Type 0 where
  pub result : LegResult
  pub failed : Option Reason
  pub stale_conns : ℕ

-- The loop of `exchange`: `connect i` is what attempt `i` gives, `last` what the one before gave.
unfoldable pub connect_loop : ℕ → (ℕ → Connect) → ℕ → Connect → Connect × ℕ
unfolding stale_conn
connect_loop zero connect i last = (last, i)
connect_loop (suc rounds) connect i last = elim (stale_conn (connect i)) [
  | false ↦ (connect i, i)
  | true ↦ connect_loop rounds connect (suc i) (connect i)
]

module _ (lib : DnsLib) where
  -- The `switch` behind the loop.
  unfoldable pub judge : Bytes → Msg → Connect → LegResult × Option Reason
  judge to r (failure e) = (record { to = to; msg = none; err = some e }, some reason_error)
  judge to r (reply ret) =
      if not (lib.answers r ret)
      then (record { to = to; msg = none; err = some mismatch }, some reason_mismatch)
      else (
        record { to = to; msg = some ret; err = none },
        if useful (some ret) then none else some reason_unusable,
      )

  unfoldable pub exchange : Bytes → Msg → (ℕ → Connect) → Leg
  exchange to r connect =
      let tried = connect_loop max_connect_attempts connect 0 (failure no_answer) in
      let judged = judge to r tried.0 in
      record { result = judged.0; failed = judged.1; stale_conns = tried.1 }

  -- `reply`: the message is made the answer to the request before it is written.
  unfoldable pub send : Writer → Msg → Msg → Served
  unfolding write_reply
  send w r m = write_reply w (lib.set_rcode m r m.rcode) rcode_success none

-- What the loop of `dispatch` waits for: the end of the context, or the next result of a leg.
pub data Event : Type 0 where
  done : Err → Event
  result : LegResult → Event

-- How a query was resolved: the labels of `queriesCount`, with the upstream of `winsCount`.
pub data Resolved : Type 0 where
  won : Bytes → Resolved
  fell_back failed cancelled : Resolved

-- `lastErr` after a result.
unfoldable pub newer {ℓ} : {A : Type ℓ} → Option A → Option A → Option A
newer none old = old
newer (some a) old = some a

-- What follows the loop when no answer was useful.
unfoldable pub give_up : DnsLib → Writer → Msg → Option Msg → Option Err → Served × Resolved
give_up lib w r (some m) last_err = (send lib w r m, fell_back)
give_up lib w r none none = (
  record { written = []; rcode = rcode_server_failure; err = some (plugin_error no_answer) },
  failed,
)
give_up lib w r none (some e) =
    (record { written = []; rcode = rcode_server_failure; err = some (plugin_error e) }, failed)

-- The loop, over the results that are still expected and the events in the order in which they
-- come. `none` means that it still waits.
unfoldable pub dispatch_loop :
    DnsLib → Writer → Msg → ℕ → List Event → Option Msg → Option Err → Option (Served × Resolved)
dispatch_loop lib w r zero events fallback last_err = some (give_up lib w r fallback last_err)
dispatch_loop lib w r (suc legs) [] fallback last_err = none
dispatch_loop lib w r (suc legs) (done e ∷ events) fallback last_err =
    some (record { written = []; rcode = rcode_server_failure; err = some e }, cancelled)
dispatch_loop lib w r (suc legs) (result res ∷ events) fallback last_err =
    let onward =
      dispatch_loop lib w r legs events (newer res.msg fallback) (newer res.err last_err) in
    elim res.msg [
      | none ↦ onward
      | some m ↦ if useful (some m) then some (send lib w r m, won res.to) else onward
    ]

unfoldable pub dispatch :
    DnsLib → Writer → Msg → List Bytes → List Event → Option (Served × Resolved)
dispatch lib w r proxies events = dispatch_loop lib w r (length proxies) events none none

-- The handler: a name outside the zone `from` goes to the next plugin.
unfoldable pub serve_dns :
    DnsLib → Bytes → List Bytes → Next → Writer → Msg → List Event → Option Served
serve_dns lib from proxies next w r events =
    if not (lib.zone_holds from (lib.request_name r))
    then some (next r)
    else Option.map (λ (d : Served × Resolved). d.0) (dispatch lib w r proxies events)
