-- ===== src/Tests/Peercache.antt =====
-- plugin/peercache/store.go with one answer in the store.
use homedns.Prelude.{
  All, arith, ℕ, ◌+◌, ◌*◌, ◌/◌, ◌≤◌, ◌≡◌, refl, true, false, List, [], ◌∷◌, Option, none, some,
  Memᴰ, Bytes, codes, ◌==◌, if◌then◌else◌,
}
use homedns.Dns.{Msg}
use homedns.Peercache.Store.{
  Entry, CacheLib, second, min_serve_ttl, min_ttl, set_ttl, storable, key_bytes, key, put_for, put,
  is_stale, serve_entry, get_for, get,
}
use homedns.Peercache.Store.Rebase.{IsInTime, serve_entry-IsInTime}
use homedns.Peercache.Store.Ttl.{records}
use homedns.Peercache.Store.Lifetime.{Put, Call, putting, getting, run, log_of, get-serves}
use homedns.Tests.World.{lib, query, answer}

abbrev code_of : Bytes → ℕ
code_of [] = 0
code_of (b ∷ bs) = b + 256 * code_of bs

-- A cache that forgets nothing.
abbrev pub lru : CacheLib
lru = record {
  Cache = ℕ → Option Entry;
  new_cache = λ n k. none;
  lookup = λ k c. c k;
  add = λ k e c j. if k == j then some e else c j;
  remove = λ k c j. if k == j then none else c j;
  lookup-new_cache = λ k n. refl;
  lookup-add = λ k j e e' c found. found;
  lookup-remove = λ k j c. refl;
  hash = code_of;
  wants_dnssec = λ m. false;
  qname = lib.request_name;
  qtype = λ m. 1;
  qclass = λ m. 1;
  cacheable = λ m. m.rcode == 0;
  whole_seconds = λ d. d / second;
}

abbrev pub r : Msg
r = query (codes "a.")

abbrev pub found : Msg
found = answer (codes "a.") 0

-- The answer has a TTL of 300 seconds, and is asked for 40 seconds later.
abbrev pub calls : List Call
calls = getting (11 * second) r ∷ putting (10 * second) r (some found) ∷ []

abbrev pub served : Msg
served = set_ttl (lib.set_rcode found r 0) 260

get_after_40 :
    (get lib lru (50 * second) r (run lib lru calls (lru.new_cache 4096))).1 ≡ some served
unfolding get get_for run put put_for storable min_ttl is_stale serve_entry key key_bytes
get_after_40 = refl

get-serves_example :
    (p : Put) × Memᴰ p (log_of lib lru calls)
    × (key lib lru p.request ≡ key lib lru r)
    × (storable lib lru p.request (some p.msg) ≡ true)
    × (min_ttl p.msg ≡ some p.ttl)
    × (min_serve_ttl + 50 * second ≤ p.ttl * second + p.now)
    × (served
        ≡ serve_entry lib lru
            (50 * second)
            r
            (record { msg = p.msg; stored = p.now; orig_ttl = p.ttl }))
get-serves_example = get-serves lib lru calls 4096 (50 * second) r served get_after_40

-- The entry of that answer, 40 seconds later.
abbrev held : Entry
held = record { msg = found; stored = 10 * second; orig_ttl = 300 }

serve_entry-IsInTime_example :
    All (IsInTime 300) (records (serve_entry lib lru (50 * second) r held))
unfolding is_stale
serve_entry-IsInTime_example =
    serve_entry-IsInTime lib lru (50 * second) r held (λ d short. refl) refl (omega arith)
      (omega arith)
