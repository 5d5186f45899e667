-- ===== src/Peercache/Contest.antt =====
-- plugin/peercache/peercache.go: every sibling and the upstream are asked at once.
use homedns.Prelude.{
  ◌||◌, ℕ, zero, suc, Bool, true, false, List, [], ◌∷◌, Option, none, some, Bytes, if◌then◌else◌,
  length,
}
use homedns.Dns.{
  Msg, Err, canceled, deadline_exceeded, net_timeout, wrapped, no_answer, plugin_error, DnsLib,
  Served, Writer, Next, write_reply, useful, rcode_success, rcode_server_failure,
}
use homedns.Detached.{DetachedWriter, new_writer, write_all}
use homedns.Peercache.Store.{CacheLib, put}
pub mod First
pub mod Count
pub mod Legs
pub mod HandBack

-- `sourcePeer` and `sourceUpstream`.
pub data Source : Type 0 where
  peer upstream : Source

pub record LegResult : Type 0 where
  pub source : Source
  pub msg : Option Msg
  pub rcode : ℕ
  pub err : Option Err

-- What the loop of `race` waits for: the end of the context, or the next result of a leg.
pub data Event : Type 0 where
  done : Err → Event
  result : LegResult → Event

-- errors.Is(err, context.Canceled).
unfoldable pub is_canceled : Err → Bool
is_canceled canceled = true
is_canceled (wrapped e) = is_canceled e
is_canceled _ = false

-- errors.Is(err, context.DeadlineExceeded).
unfoldable pub is_deadline : Err → Bool
is_deadline deadline_exceeded = true
is_deadline (wrapped e) = is_deadline e
is_deadline _ = false

-- `isTimeout`: errors.As finds a net.Error whose Timeout is true, as it is of DeadlineExceeded.
unfoldable pub is_timeout : Err → Bool
is_timeout deadline_exceeded = true
is_timeout net_timeout = true
is_timeout (wrapped e) = is_timeout e
is_timeout _ = false

unfoldable pub is_late : Err → Bool
unfolding is_deadline is_timeout
is_late e = is_deadline e || is_timeout e

-- What Client.ExchangeContext returns for a sibling: a reply, or an error.
pub data Exchanged : Type 0 where
  replied : Msg → Exchanged
  broken : Err → Exchanged

-- The labels of `probeFailures` that `probe` uses.
pub data Failure : Type 0 where
  late broke : Failure

-- The result of `probe`, and the failure that it counts.
unfoldable pub probe : Exchanged → LegResult × Option Failure
unfolding is_canceled is_late
probe (replied m) =
    (record { source = peer; msg = some m; rcode = rcode_success; err = none }, none)
probe (broken e) = (
  record { source = peer; msg = none; rcode = rcode_success; err = none },
  if is_canceled e then none else if is_late e then some late else some broke,
)

-- The leg of the next plugin, which writes to a detached writer with the client's addresses.
unfoldable pub upstream_leg : Next → Bytes → Bytes → Msg → LegResult
unfolding new_writer write_all
upstream_leg next local remote r =
    let served = next r in
    record {
      source = upstream;
      msg = (write_all served.written (new_writer local remote)).msg;
      rcode = served.rcode;
      err = served.err;
    }

-- `reply`.
unfoldable pub send_on : DnsLib → Writer → Msg → Msg → Option Err → Served
unfolding write_reply
send_on lib w r m err = write_reply w (lib.set_rcode m r m.rcode) rcode_success err

-- `upstream` after a result.
unfoldable pub latest_upstream : LegResult → Option LegResult → Option LegResult
latest_upstream res old = elim res.source [ upstream ↦ some res | peer ↦ old ]

-- What follows the loop when no answer was useful.
unfoldable pub hand_back_msg : DnsLib → Writer → Msg → LegResult → Option Msg → Served
unfolding send_on
hand_back_msg lib w r res none = record { written = []; rcode = res.rcode; err = res.err }
hand_back_msg lib w r res (some m) = send_on lib w r m res.err

unfoldable pub hand_back : DnsLib → Writer → Msg → Option LegResult → Served
unfolding hand_back_msg
hand_back lib w r none = record {
  written = [];
  rcode = rcode_server_failure;
  err = some (plugin_error no_answer);
}
hand_back lib w r (some res) = hand_back_msg lib w r res res.msg

module _ (lib : DnsLib) (lru : CacheLib) where
  -- The loop of `race`, over the results that are still expected and the events in their order,
  -- each with the time at which it comes. `none` means that it still waits.
  unfoldable pub contest_loop :
      Writer
      → Msg
      → ℕ
      → List (ℕ × Event)
      → Option LegResult
      → lru.Cache
      → Option (lru.Cache × Served)
  contest_loop w r zero events up c = some (c, hand_back lib w r up)
  contest_loop w r (suc legs) [] up c = none
  contest_loop w r (suc legs) ((now, done e) ∷ events) up c =
      some (c, record { written = []; rcode = rcode_server_failure; err = some e })
  contest_loop w r (suc legs) ((now, result res) ∷ events) up c =
      let onward = contest_loop w r legs events (latest_upstream res up) c in
      elim res.msg [
        | none ↦ onward
        | some m ↦
            if useful (some m)
            then some (put lib lru now r (some m) c, send_on lib w r m res.err)
            else onward
      ]

  unfoldable pub contest :
      Writer → Msg → List Bytes → List (ℕ × Event) → lru.Cache → Option (lru.Cache × Served)
  contest w r peers events c = contest_loop w r (suc (length peers)) events none c

  -- dnstest.Recorder keeps the last message that is written through it.
  unfoldable pub last_written : List Msg → Option Msg
  last_written [] = none
  last_written (m ∷ []) = some m
  last_written (m ∷ n ∷ ms) = last_written (n ∷ ms)

  -- The handler. Without siblings, the next plugin writes to the client through a recorder.
  unfoldable pub serve_dns :
      Next
      → Writer
      → Msg
      → List Bytes
      → ℕ
      → List (ℕ × Event)
      → lru.Cache
      → Option (lru.Cache × Served)
  serve_dns next w r [] now events c =
      let served = next r in some (put lib lru now r (last_written served.written) c, served)
  serve_dns next w r (p ∷ peers) now events c = contest w r (p ∷ peers) events c
