-- ===== src/Peercache/Store.antt =====
-- plugin/peercache/store.go: the answers held for sibling replicas. Times are nanoseconds.
use homedns.Prelude.{
  ℕ, zero, suc, ◌+◌, ◌-◌, ◌*◌, ◌/◌, ◌%◌, ◌^◌, ◌<◌, ◌≡◌, ◌≢◌, Bool, true, false, not, ◌&&◌, ◌||◌,
  List, [], ◌∷◌, ◌++◌, Option, none, some, Bytes, ltb, ◌==◌, if◌then◌else◌, map,
}
use homedns.Dns.{Msg, Rr, DnsLib, type_opt}
pub mod Ttl
pub mod Lifetime
pub mod Rebase
pub mod Gauge

abbrev pub store_capacity : ℕ
store_capacity = 4096

abbrev pub second : ℕ
second = 1000000000

-- Below this remaining lifetime an entry is dropped.
abbrev pub min_serve_ttl : ℕ
min_serve_ttl = 5 * second

pub record Entry : Type 0 where
  pub msg : Msg
  pub stored : ℕ
  pub orig_ttl : ℕ

-- The cache of CoreDNS's package cache, which may forget entries on its own, and what else the
-- store calls: its hash, and the parts of a request that request.Request computes.
pub record CacheLib : Type 1 where
  pub Cache : Type 0
  pub new_cache : ℕ → Cache
  pub lookup : ℕ → Cache → Option Entry
  pub add : ℕ → Entry → Cache → Cache
  pub remove : ℕ → Cache → Cache
  pub lookup-new_cache : (k n : ℕ) → lookup k (new_cache n) ≡ none
  pub lookup-add :
      (k j : ℕ) (e e' : Entry) (c : Cache)
      → lookup j (add k e c) ≡ some e'
      → (if k == j then some e else lookup j c) ≡ some e'
  pub lookup-remove :
      (k j : ℕ) (c : Cache) → lookup j (remove k c) ≡ (if k == j then none else lookup j c)
  pub hash : Bytes → ℕ
  -- Request.Do, Request.Name, Request.QType and Request.QClass.
  pub wants_dnssec : Msg → Bool
  pub qname : Msg → Bytes
  pub qtype : Msg → ℕ
  pub qclass : Msg → ℕ
  -- response.Typify gives NoError, NameError or NoData.
  pub cacheable : Msg → Bool
  -- uint32(d.Seconds()), which goes through a float64.
  pub whole_seconds : ℕ → ℕ

-- The body of the loop of `minTTL`; `none` is `found == false`.
unfoldable pub min_ttl_round : Rr → Option ℕ → Option ℕ
min_ttl_round rr none = if rr.rrtype == type_opt then none else some rr.ttl
min_ttl_round rr (some min) =
    if rr.rrtype == type_opt then some min else if ltb rr.ttl min then some rr.ttl else some min

unfoldable pub min_ttl_loop : Option ℕ → List Rr → Option ℕ
unfolding min_ttl_round
min_ttl_loop least [] = least
min_ttl_loop least (rr ∷ rrs) = min_ttl_loop (min_ttl_round rr least) rrs

unfoldable pub min_ttl : Msg → Option ℕ
unfolding min_ttl_loop
min_ttl m = min_ttl_loop (min_ttl_loop (min_ttl_loop none m.answer) m.ns) m.extra

unfoldable pub set_rr_ttl : ℕ → Rr → Rr
set_rr_ttl ttl rr = if rr.rrtype == type_opt then rr else record rr { ttl = ttl }

unfoldable pub set_ttl : Msg → ℕ → Msg
unfolding set_rr_ttl
set_ttl m ttl = record m {
  answer = map (set_rr_ttl ttl) m.answer;
  ns = map (set_rr_ttl ttl) m.ns;
  extra = map (set_rr_ttl ttl) m.extra;
}

module _ (lib : DnsLib) (lru : CacheLib) where
  open lru use {
    Cache, lookup, add, remove, hash, wants_dnssec, qname, qtype, qclass, cacheable, whole_seconds,
  }

  -- The message is `nil` in no caller's call but that of a leg without an answer, hence `Option`.
  unfoldable pub storable : Msg → Option Msg → Bool
  storable r none = false
  storable r (some m) =
      if m.truncated || wants_dnssec r || r.checking_disabled then false else cacheable m

  -- The bytes that are hashed: the name, the type and the class, high byte first.
  unfoldable pub key_bytes : Msg → Bytes
  key_bytes r =
      qname r
      ++ (qtype r / 2 ^ 8) % 256 ∷ qtype r % 256 ∷ (qclass r / 2 ^ 8) % 256 ∷ qclass r % 256 ∷ []

  unfoldable pub key : Msg → ℕ
  key r = hash (key_bytes r)

  -- The end of `put`, with the result of `minTTL`.
  unfoldable pub put_for : ℕ → Msg → Msg → Option ℕ → Cache → Cache
  put_for now r m none c = c
  put_for now r m (some ttl) c =
      if ltb (ttl * second) min_serve_ttl
      then c
      else add (key r) (record { msg = m; stored = now; orig_ttl = ttl }) c

  unfoldable pub put : ℕ → Msg → Option Msg → Cache → Cache
  put now r none c = c
  put now r (some m) c = if not (storable r (some m)) then c else put_for now r m (min_ttl m) c

  -- `remaining` is `orig_ttl` seconds less what passed since `stored`; it is below the floor exactly
  -- if the expiry is less than the floor ahead, whichever way the clock went.
  unfoldable pub is_stale : ℕ → Entry → Bool
  is_stale now e = ltb (e.orig_ttl * second + e.stored) (min_serve_ttl + now)

  unfoldable pub serve_entry : ℕ → Msg → Entry → Msg
  serve_entry now r e =
      set_ttl (lib.set_rcode e.msg r e.msg.rcode)
        (whole_seconds (e.orig_ttl * second + e.stored - now))

  -- The end of `get`, with what the cache holds.
  unfoldable pub get_for : ℕ → Msg → Option Entry → Cache → Cache × Option Msg
  get_for now r none c = (c, none)
  get_for now r (some e) c =
      if is_stale now e then (remove (key r) c, none) else (c, some (serve_entry now r e))

  unfoldable pub get : ℕ → Msg → Cache → Cache × Option Msg
  get now r c =
      if wants_dnssec r || r.checking_disabled
      then (c, none)
      else get_for now r (lookup (key r) c) c
