-- ===== src/Detached/Capture.antt =====
-- What a handler can do to the detached writer.
use homedns.Prelude.{◌≡◌, refl, List, [], ◌∷◌, Option, some}
use homedns.Dns.{Msg}
use homedns.Detached.{
  DetachedWriter, write_msg, Call, writing, writing_raw, local_addr, remote_addr, close,
  tsig_status, tsig_timers_only, hijack, call, call_all,
}

-- The last message that is written, behind `old`.
abbrev pub last_of : Option Msg → List Call → Option Msg
last_of old [] = old
last_of old (writing m ∷ ks) = last_of (some m) ks
last_of old (_ ∷ ks) = last_of old ks

-- Whatever a handler calls, the writer holds the addresses that it was made with and the last
-- message that was written to it.
pub call_all-captures :
    (ks : List Call) (d : DetachedWriter) → call_all ks d ≡ record d { msg = last_of d.msg ks }
unfolding call_all call write_msg
call_all-captures [] d = refl
call_all-captures (writing m ∷ ks) d = call_all-captures ks (record d { msg = some m })
call_all-captures (writing_raw b ∷ ks) d = call_all-captures ks d
call_all-captures (local_addr ∷ ks) d = call_all-captures ks d
call_all-captures (remote_addr ∷ ks) d = call_all-captures ks d
call_all-captures (close ∷ ks) d = call_all-captures ks d
call_all-captures (tsig_status ∷ ks) d = call_all-captures ks d
call_all-captures (tsig_timers_only b ∷ ks) d = call_all-captures ks d
call_all-captures (hijack ∷ ks) d = call_all-captures ks d
