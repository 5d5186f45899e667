-- ===== src/Peercache/Replicas/Circle.antt =====
-- An answer on its way from the store of one replica to the client of another one.
use homedns.Prelude.{
  ℕ, ◌+◌, ◌-◌, ◌*◌, ◌≤◌, ◌≡◌, refl, sym, ap, ◌∙◌, true, false, List, ◌∷◌, ◌++◌, map, none, some,
  Bytes, All, arith, length, ◌==◌, ==_iff, ◌||◌,
}
use mathlib.Core.Option.{some-injective}
use homedns.Dns.{Msg, DnsLib, Writer, useful, rcode_success}
use homedns.Peercache.Store.{
  Entry, CacheLib, second, min_serve_ttl, min_ttl, set_rr_ttl, set_ttl, storable, key, put_for, put,
  is_stale, serve_entry, get_for, get,
}
use homedns.Peercache.Listener.{NetLib, or_refuse, serve_probe}
use homedns.Peercache.Listener.Probe.{IsSibling, IsSibling-is_peer}
use homedns.Peercache.Contest.{peer, Event, result, probe, contest, send_on}
use homedns.Peercache.Contest.First.{Timed, IsLosing, arrivals, contest-first}
use homedns.Peercache.Replicas.{ask_sibling}

module _ (lib : DnsLib) (lru : CacheLib) where
  open lru use {Cache, lookup, lookup-add}

  -- An answer that `put` takes is added under its key.
  put-add :
      (now ttl : ℕ) (r m : Msg) (c : Cache)
      → storable lib lru r (some m) ≡ true
      → min_ttl m ≡ some ttl
      → min_serve_ttl ≤ ttl * second
      → put lib lru now r (some m) c
        ≡ lru.add (key lib lru r) (record { msg = m; stored = now; orig_ttl = ttl }) c
  unfolding put put_for
  put-add now ttl r m c ok least long = rw (ok, least) (ground arith)

  -- A store that still has an entry under the key has the one that was put there last.
  put-lookup :
      (now ttl : ℕ) (r m : Msg) (c : Cache) (e : Entry)
      → storable lib lru r (some m) ≡ true
      → min_ttl m ≡ some ttl
      → min_serve_ttl ≤ ttl * second
      → lookup (key lib lru r) (put lib lru now r (some m) c) ≡ some e
      → e ≡ record { msg = m; stored = now; orig_ttl = ttl }
  put-lookup now ttl r m c e ok least long found =
      let k = key lib lru r in
      let fresh : Entry = record { msg = m; stored = now; orig_ttl = ttl } in
      let added =
        lookup-add k k fresh e c
          (ap (lookup k) (sym (put-add now ttl r m c ok least long)) ∙ found) in
      sym (some-injective fresh e (rw ((==_iff k k).1 refl) at added))

  -- A live entry is served to a request that `get` does not turn away.
  get-held :
      (now : ℕ) (q : Msg) (c : Cache) (e : Entry)
      → lru.wants_dnssec q ≡ false
      → q.checking_disabled ≡ false
      → lookup (key lib lru q) c ≡ some e
      → is_stale lib lru now e ≡ false
      → (get lib lru now q c).1 ≡ some (serve_entry lib lru now q e)
  unfolding get get_for
  get-held now q c e plain checked found alive =
      let asked : (lru.wants_dnssec q || q.checking_disabled) ≡ false = ground arith in
      rw (asked, found, get_for, alive) refl

  -- The probe of a sibling with one question gets what the store has.
  ask_sibling-held :
      (net : NetLib) (book : List Bytes) (remote : Bytes) (then : ℕ) (q m : Msg) (c : Cache)
      → IsSibling net remote book
      → length q.question ≡ 1
      → (get lib lru then q c).1 ≡ some m
      → ask_sibling lib lru net book then remote q c
        ≡ record { source = peer; msg = some m; rcode = rcode_success; err = none }
  unfolding ask_sibling probe serve_probe or_refuse
  ask_sibling-held net book remote then q m c known single got =
      let one : (length q.question == 1) ≡ true = (==_iff _ _).1 single in
      rw (IsSibling-is_peer net remote book known, one, got, or_refuse) refl

  -- What is served of a message: the request's reply with the message's code and its records, whose
  -- TTLs are `left`.
  pub record IsServed (left : ℕ) (q m got : Msg) : Type 0 where
    pub id : got.id ≡ q.id
    pub rcode : got.rcode ≡ m.rcode
    pub truncated : got.truncated ≡ m.truncated
    pub answer : got.answer ≡ map (set_rr_ttl left) m.answer
    pub ns : got.ns ≡ map (set_rr_ttl left) m.ns
    pub extra : got.extra ≡ map (set_rr_ttl left) m.extra

  serve_entry-IsServed :
      (then : ℕ) (q : Msg) (e : Entry)
      → IsServed
          (lru.whole_seconds (e.orig_ttl * second + e.stored - then))
          q
          e.msg
          (serve_entry lib lru then q e)
  unfolding serve_entry set_ttl
  serve_entry-IsServed then q e =
      let rrs = map (set_rr_ttl (lru.whole_seconds (e.orig_ttl * second + e.stored - then))) in
      record {
        id = lib.set_rcode-id e.msg q e.msg.rcode;
        rcode = lib.set_rcode-rcode e.msg q e.msg.rcode;
        truncated = lib.set_rcode-truncated e.msg q e.msg.rcode;
        answer = ap rrs (lib.set_rcode-answer e.msg q e.msg.rcode);
        ns = ap rrs (lib.set_rcode-ns e.msg q e.msg.rcode);
        extra = ap rrs (lib.set_rcode-extra e.msg q e.msg.rcode);
      }

module _ (lib : DnsLib) (lru : CacheLib) (net : NetLib) where
  open lru use {Cache, lookup}

  -- One replica puts a useful answer into its store; later its sibling asks the same question, and
  -- the probe's reply is the first useful result of the sibling's contest. If the answer is storable,
  -- has a TTL, at least five seconds of it are left, and the store has not lost its entry, then the
  -- sibling's client is sent a reply with the answer's code and records, under what is left of the
  -- TTL, and the sibling hands it to its own store.
  pub put-contest :
      (book : List Bytes) (remote : Bytes) (now then at ttl : ℕ) (r q m : Msg) (c d : Cache)
      (e : Entry) (w : Writer) (peers : List Bytes) (before : List Timed) (late : List (ℕ × Event))
      → storable lib lru r (some m) ≡ true
      → useful (some m) ≡ true
      → min_ttl m ≡ some ttl
      → now ≤ then
      → min_serve_ttl + then ≤ ttl * second + now
      → lookup (key lib lru r) (put lib lru now r (some m) c) ≡ some e
      → key lib lru q ≡ key lib lru r
      → lru.wants_dnssec q ≡ false
      → q.checking_disabled ≡ false
      → length q.question ≡ 1
      → IsSibling net remote book
      → All IsLosing before
      → length before ≤ length peers
      → (got : Msg) × (contest lib lru w q peers
            (arrivals before
              ++ (
                at,
                result (ask_sibling lib lru net book then remote q (put lib lru now r (some m) c)),
              )
                ∷ late)
            d
          ≡ some (put lib lru at q (some got) d, send_on lib w q got none))
        × IsServed lib lru (lru.whole_seconds (ttl * second + now - then)) q m got
  unfolding is_stale useful
  put-contest book remote now then at ttl r q m c d e w peers before late ok good least after left
        held same plain checked single known losing more =
      let entry : Entry = record { msg = m; stored = now; orig_ttl = ttl } in
      let store = put lib lru now r (some m) c in
      let got = serve_entry lib lru then q entry in
      let last : e ≡ entry = put-lookup lib lru now ttl r m c e ok least (omega arith) held in
      let found : lookup (key lib lru q) store ≡ some entry =
        ap (λ k. lookup k store) same ∙ held ∙ ap some last in
      let alive : is_stale lib lru then entry ≡ false = ground arith in
      let asked =
        ask_sibling-held lib lru net book remote then q got store known single
          (get-held lib lru then q store entry plain checked found alive) in
      let served = serve_entry-IsServed lib lru then q entry in
      let useful_got : useful (some got) ≡ true = rw (served.truncated, served.rcode) good in
      (
        got,
        (contest-first lib lru w q peers before late d losing more).0 at
              (ask_sibling lib lru net book then remote q store) got (ap (λ t. t.msg) asked)
              useful_got
            ∙ rw asked refl,
        served,
      )
