-- ===== src/Tests/Race.antt =====
-- plugin/race/race.go at two upstreams.
use homedns.Prelude.{
  ℕ, zero, suc, ◌≡◌, refl, ◌⊎◌, true, false, List, [], ◌∷◌, ◌++◌, map, none, some, Memᴰ, Bytes, All,
  codes, str_eq, arith,
}
use homedns.Dns.{
  Msg, Err, Served, useful, eof, wrapped, rcode_success, rcode_name_error, rcode_server_failure,
}
use homedns.Race.{
  Connect, reply, failure, stale_conn, LegResult, Resolved, done, result, won, cancelled,
  connect_loop, judge, exchange, send, dispatch,
}
use homedns.Race.Dispatch.{dispatch-ends}
use homedns.Race.Answers.{IsAnswer, dispatch-IsAnswer}
use homedns.Race.Order.{IsLegOf, dispatch-serves}
use homedns.Fanout.{new_fanout, Inevitable}
use homedns.Fanout.Handler.{IsWaiting, IsReturned}
use homedns.Race.Legs.{capacity, returned, dispatch_run-IsReturned}
use homedns.Tests.World.{lib, query, answer}

abbrev pub r : Msg
r = query (codes "a.example.")

abbrev pub refused : Msg
refused = answer (codes "a.example.") 5

abbrev found : Msg
found = answer (codes "a.example.") 0

-- Two dead pooled connections, then an answer.
abbrev pub drained : ℕ → Connect
drained zero = failure eof
drained (suc zero) = failure (wrapped eof)
drained (suc (suc i)) = reply found

abbrev at_once : ℕ → Connect
at_once i = reply refused

exchange_after_two : exchange lib (codes "u") r drained ≡ record {
  result = record { to = codes "u"; msg = some found; err = none };
  failed = none;
  stale_conns = 2;
}
unfolding exchange connect_loop stale_conn judge useful str_eq
exchange_after_two = refl

abbrev pub proxies : List Bytes
proxies = codes "u" ∷ codes "v" ∷ []

abbrev pub results : List LegResult
results =
    (exchange lib (codes "v") r at_once).result ∷ (exchange lib (codes "u") r drained).result ∷ []

dispatch-IsAnswer_example :
    (out : Served × Resolved) × (dispatch lib none r proxies (map result results ++ []) ≡ some out)
    × IsAnswer lib none r results out
dispatch-IsAnswer_example = dispatch-IsAnswer lib none r proxies results [] refl

abbrev loser : LegResult
loser = record { to = codes "v"; msg = some refused; err = none }

loses : All (λ (res : LegResult). useful res.msg ≡ false) (loser ∷ [])
unfolding useful
loses = (refl, tt)

dispatch-ends_example :
    ((res : LegResult) (m : Msg)
      → res.msg ≡ some m
      → useful (some m) ≡ true
      → dispatch lib none r proxies (map result (loser ∷ []) ++ result res ∷ [])
        ≡ some (send lib none r m, won res.to))
    × ((e : Err)
        → dispatch lib none r proxies (map result (loser ∷ []) ++ done e ∷ [])
          ≡ some (record { written = []; rcode = rcode_server_failure; err = some e }, cancelled))
dispatch-ends_example = dispatch-ends lib none r proxies (loser ∷ []) [] loses (omega arith)

pub legs : All (IsLegOf lib r) results
legs = ((codes "v", at_once, refl), ((codes "u", drained, refl), tt))

pub drained-useful : useful (exchange lib (codes "u") r drained).result.msg ≡ true
unfolding exchange connect_loop stale_conn judge useful str_eq
drained-useful = refl

dispatch-serves_example :
    (to : Bytes) × (m : Msg) × (dispatch lib none r proxies (map result results ++ [])
      ≡ some (send lib none r m, won to))
    × (lib.answers r m ≡ true)
    × (useful (some m) ≡ true)
    × ((one : LegResult) × Memᴰ one results × (one.msg ≡ some m) × (one.to ≡ to))
    × ((m.rcode ≡ rcode_success) ⊎ (m.rcode ≡ rcode_name_error))
dispatch-serves_example =
    dispatch-serves lib none r proxies results [] (exchange lib (codes "u") r drained).result legs
      refl (Memᴰ.tail (Memᴰ.head refl)) drained-useful

dispatch_run-IsReturned_example :
    Inevitable
      (IsWaiting (returned lib none r proxies))
      (capacity proxies)
      (IsReturned (returned lib none r proxies))
      (new_fanout results)
dispatch_run-IsReturned_example = dispatch_run-IsReturned lib none r proxies results refl
