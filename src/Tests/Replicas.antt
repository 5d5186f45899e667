-- ===== src/Tests/Replicas.antt =====
-- A replica's probe that a sibling answers from its store.
use homedns.Prelude.{
  ◌+◌, ◌-◌, ◌*◌, ◌≡◌, refl, true, List, [], ◌∷◌, ◌++◌, none, some, Bytes, codes, str_eq, arith,
}
use homedns.Dns.{Msg, useful}
use homedns.Peercache.Store.{
  second, Entry, min_ttl, set_ttl, storable, key_bytes, key, put_for, put, is_stale, serve_entry,
  get_for, get,
}
use homedns.Peercache.Store.Lifetime.{run, log_of}
use homedns.Peercache.Listener.{
  parse_host, same_ip, peer_loop, peer_with, is_peer, refusal, or_refuse, serve_probe,
}
use homedns.Peercache.Listener.Probe.{IsSibling, is_peer-IsSibling}
use homedns.Peercache.Listener.Serve.{Probe, IsUndisturbed, new_served, serve-strangers}
use homedns.Peercache.Contest.{probe, result, contest, send_on}
use homedns.Peercache.Contest.First.{arrivals}
use homedns.Peercache.Replicas.{ask_sibling, IsFromStore, ask_sibling-serves}
use homedns.Tests.World.{lib}
use homedns.Tests.Peercache.{lru, r, calls, found, served}
use homedns.Peercache.Replicas.Circle.{IsServed, put-contest}
use homedns.Tests.Listener.{net, peers}

answers :
    (ask_sibling lib lru net peers
      (50 * second)
      (codes "a")
      r
      (run lib lru calls (lru.new_cache 4096))).msg
    ≡ some served
unfolding ask_sibling probe serve_probe is_peer peer_with peer_loop same_ip parse_host str_eq
    or_refuse refusal get get_for run put put_for storable min_ttl is_stale serve_entry key
    key_bytes set_ttl
answers = refl

served_useful : useful (some served) ≡ true
unfolding useful set_ttl
served_useful = refl

ask_sibling-serves_example :
    (contest lib lru none r
        (codes "b:8053" ∷ [])
        (arrivals []
          ++ (
            60,
            result (
                ask_sibling lib lru net peers
                  (50 * second)
                  (codes "a")
                  r
                  (run lib lru calls (lru.new_cache 4096))),
          )
            ∷ [])
        (lru.new_cache 4096)
      ≡ some (put lib lru 60 r (some served) (lru.new_cache 4096), send_on lib none r served none))
    × IsSibling net (codes "a") peers
    × IsFromStore lib lru (log_of lib lru calls) (50 * second) r served
ask_sibling-serves_example =
    ask_sibling-serves lib lru net none r peers (codes "a") calls 4096 (50 * second) 60
      (codes "b:8053" ∷ []) [] [] (lru.new_cache 4096) served tt (omega arith) answers served_useful

-- A stranger's probe before a sibling's.
abbrev probes : List (List Bytes × Probe)
probes =
    (peers, record { now = 50 * second; remote = codes "c"; request = r })
    ∷ (peers, record { now = 50 * second; remote = codes "a"; request = r })
    ∷ []

serve-strangers_example :
    IsUndisturbed lib lru net probes
      (new_served lib lru net (run lib lru calls (lru.new_cache 4096)))
      (new_served lib lru net (run lib lru calls (lru.new_cache 4096)))
serve-strangers_example =
    serve-strangers lib lru net probes (run lib lru calls (lru.new_cache 4096))

-- The same question in another request.
abbrev q : Msg
q = record r { id = 9 }

abbrev entry : Entry
entry = record { msg = found; stored = 10 * second; orig_ttl = 300 }

takes : storable lib lru r (some found) ≡ true
unfolding storable
takes = refl

lives : min_ttl found ≡ some 300
unfolding min_ttl
lives = refl

helps : useful (some found) ≡ true
unfolding useful
helps = refl

same_key : key lib lru q ≡ key lib lru r
unfolding key key_bytes
same_key = refl

still_held :
    lru.lookup (key lib lru r) (put lib lru (10 * second) r (some found) (lru.new_cache 4096))
    ≡ some entry
unfolding put put_for storable min_ttl key key_bytes
still_held = refl

knows : is_peer net (codes "a") peers ≡ true
unfolding is_peer peer_with peer_loop same_ip parse_host str_eq
knows = refl

put-contest_example :
    (got : Msg) × (contest lib lru none q
        (codes "b:8053" ∷ [])
        (arrivals []
          ++ (
            60,
            result (
                ask_sibling lib lru net peers
                  (50 * second)
                  (codes "a")
                  q
                  (put lib lru (10 * second) r (some found) (lru.new_cache 4096))),
          )
            ∷ [])
        (lru.new_cache 4096)
      ≡ some (put lib lru 60 q (some got) (lru.new_cache 4096), send_on lib none q got none))
    × IsServed lib lru (lru.whole_seconds (300 * second + 10 * second - 50 * second)) q found got
put-contest_example =
    put-contest lib lru net peers (codes "a") (10 * second) (50 * second) 60 300 r q found
      (lru.new_cache 4096) (lru.new_cache 4096) entry none (codes "b:8053" ∷ []) [] [] takes helps
      lives (omega arith) (omega arith) still_held same_key refl refl refl
      (is_peer-IsSibling net (codes "a") peers knows) tt (omega arith)
