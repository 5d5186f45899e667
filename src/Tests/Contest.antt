-- ===== src/Tests/Contest.antt =====
-- plugin/peercache/peercache.go with one sibling, which answers first or not at all.
use homedns.Prelude.{ℕ, ◌≡◌, refl, true, List, [], ◌∷◌, ◌++◌, none, some, Bytes, codes, arith}
use homedns.Dns.{Msg, Served, Err, other, Next, useful, rcode_server_failure}
use homedns.Detached.{new_writer, write_msg, write_all}
use homedns.Peercache.Store.{put}
use homedns.Peercache.Contest.{
  peer, LegResult, done, result, broken, probe, is_canceled, is_late, is_deadline, is_timeout,
  upstream_leg, send_on, contest,
}
use homedns.Peercache.Contest.First.{Timed, arrivals, contest-first}
use homedns.Peercache.Contest.HandBack.{IsHandedBack, contest-IsHandedBack}
use homedns.Fanout.{new_fanout, Inevitable}
use homedns.Fanout.Handler.{IsWaiting, IsReturned}
use homedns.Peercache.Contest.Legs.{capacity, returned, contest_run-IsReturned}
use homedns.Tests.World.{lib, query, answer}
use homedns.Tests.Peercache.{lru}

abbrev r : Msg
r = query (codes "a.")

abbrev refused : Msg
refused = answer (codes "a.") 5

abbrev peers : List Bytes
peers = codes "10.0.0.2:5353" ∷ []

-- The sibling cannot be reached.
abbrev missed : Timed
missed = (4, record { source = peer; msg = none; rcode = 0; err = none })

missed_probe : (probe (broken (other 1))).0 ≡ missed.1
unfolding probe is_canceled is_late is_deadline is_timeout
missed_probe = refl

abbrev next : Next
next q = record { written = refused ∷ []; rcode = 0; err = none }

contest-first_example :
    ((now : ℕ) (res : LegResult) (m : Msg)
      → res.msg ≡ some m
      → useful (some m) ≡ true
      → contest lib lru none r peers
          (arrivals (missed ∷ []) ++ (now, result res) ∷ [])
          (lru.new_cache 4)
        ≡ some (put lib lru now r (some m) (lru.new_cache 4), send_on lib none r m res.err))
    × ((now : ℕ) (e : Err)
        → contest lib lru none r peers
            (arrivals (missed ∷ []) ++ (now, done e) ∷ [])
            (lru.new_cache 4)
          ≡ some (
            lru.new_cache 4,
            record { written = []; rcode = rcode_server_failure; err = some e },
          ))
unfolding useful
contest-first_example =
    contest-first lib lru none r peers (missed ∷ []) [] (lru.new_cache 4) (refl, tt) (omega arith)

contest-IsHandedBack_example :
    (out : Served) × (contest lib lru none r peers
        (arrivals (missed ∷ (9, upstream_leg next (codes "l") (codes "c") r) ∷ []) ++ [])
        (lru.new_cache 4)
      ≡ some (lru.new_cache 4, out))
    × IsHandedBack lib none r (next r) out
unfolding useful upstream_leg new_writer write_all write_msg
contest-IsHandedBack_example =
    contest-IsHandedBack lib lru none r peers (missed ∷ []) [] next (codes "l") (codes "c") 9 []
      (lru.new_cache 4) (refl, (refl, tt)) tt refl

-- The sibling's result and the upstream's.
abbrev both : List LegResult
both = missed.1 ∷ upstream_leg next (codes "l") (codes "c") r ∷ []

contest_run-IsReturned_example :
    Inevitable
      (IsWaiting (returned lib lru none r peers (lru.new_cache 4)))
      (capacity peers)
      (IsReturned (returned lib lru none r peers (lru.new_cache 4)))
      (new_fanout both)
contest_run-IsReturned_example =
    contest_run-IsReturned lib lru none r peers (lru.new_cache 4) both refl
