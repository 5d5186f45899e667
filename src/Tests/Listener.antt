-- ===== src/Tests/Listener.antt =====
-- plugin/peercache/listener.go: a sibling's probe for a held answer, and a port in use.
use homedns.Prelude.{
  refl, ℕ, zero, suc, ◌*◌, ◌≡◌, Bool, true, false, List, [], ◌∷◌, some, Bytes, codes, length,
  str_eq, arith,
}
use homedns.Peercache.Store.{
  second, min_ttl, set_ttl, storable, key_bytes, key, put_for, put, is_stale, serve_entry, get_for,
  get,
}
use homedns.Peercache.Store.Lifetime.{run}
use homedns.Peercache.Listener.{
  NetLib, parse_host, same_ip, peer_loop, peer_with, is_peer, refusal, or_refuse, serve_probe,
  socket, bind, bind_loop,
}
use homedns.Peercache.Listener.Probe.{IsSibling, serve_probe-answers}
use homedns.Tests.World.{lib}
use homedns.Tests.Peercache.{lru, r, calls}

-- The host is the text itself, and an address is its text.
abbrev pub net : NetLib
net = record { host_of = some; parse_ip = some; ip_equal = str_eq }

abbrev pub peers : List Bytes
peers = codes "b" ∷ codes "a" ∷ []

serve_probe-answers_example :
    IsSibling net (codes "a") peers
    × (length r.question ≡ 1)
    × ((get lib lru (50 * second) r (run lib lru calls (lru.new_cache 4))).1
        ≡ some
            (serve_probe lib lru net peers
              (50 * second)
              (codes "a")
              r
              (run lib lru calls (lru.new_cache 4))).1)
unfolding serve_probe is_peer peer_with peer_loop same_ip parse_host str_eq or_refuse refusal get
    get_for run put put_for storable min_ttl is_stale serve_entry key key_bytes set_ttl
serve_probe-answers_example =
    serve_probe-answers lib lru net peers (50 * second) (codes "a") r
      (run lib lru calls (lru.new_cache 4)) (λ refused. ground (arith, refused))

-- The port is free from the third attempt on.
abbrev freed : ℕ → Bool
freed zero = false
freed (suc zero) = false
freed (suc (suc i)) = true

binds : bind freed (λ i. false) ≡ socket 2
unfolding bind bind_loop
binds = refl
