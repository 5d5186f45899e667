-- ===== src/Chain.antt =====
-- A query that reaches peercache, as neither blocklist nor CoreDNS's own cache has answered it: the
-- siblings are asked, and race, the next plugin in the order of directives.go, on the detached writer
-- of the upstream leg.
use homedns.Prelude.{
  ℕ, ◌≤◌, ◌≡◌, refl, ap, ◌∙◌, true, List, [], ◌∷◌, ◌++◌, map, some, none, Memᴰ, Bytes, All, length,
  ◌⊎◌,
}
use homedns.Dns.{Msg, DnsLib, Served, Next, write_reply, useful, rcode_success, rcode_name_error}
use homedns.Detached.{new_writer, write_msg, write_all}
use homedns.Peercache.Store.{CacheLib, put}
use homedns.Peercache.Contest.{
  Event, result, upstream, upstream_leg, send_on, serve_dns as peercache_serve,
}
use homedns.Peercache.Contest.First.{Timed, IsLosing, arrivals, contest-first}
use homedns.Race.{LegResult, Event as RaceEvent, result as result_of, send, serve_dns as race_serve}
use homedns.Race.Order.{IsLegOf, dispatch-serves}

-- The two replies to a request that carry the records of `m`: the one that race writes to the
-- detached writer, and the one that peercache makes of it for the client.
abbrev pub relayed : DnsLib → Msg → Msg → Msg
relayed lib r m = lib.set_rcode m r m.rcode

-- What the client gets: the reply to its request, with the code and records of an answer to it.
pub record IsReplyWith (lib : DnsLib) (r m sent : Msg) : Type 0 where
  pub id : sent.id ≡ r.id
  pub response : sent.response ≡ true
  pub truncated : sent.truncated ≡ m.truncated
  pub rcode : sent.rcode ≡ m.rcode
  pub answer : sent.answer ≡ m.answer
  pub ns : sent.ns ≡ m.ns
  pub extra : sent.extra ≡ m.extra

relayed-IsReplyWith : (lib : DnsLib) (r m : Msg) → IsReplyWith lib r m (relayed lib r m)
relayed-IsReplyWith lib r m = record {
  id = lib.set_rcode-id m r m.rcode;
  response = lib.set_rcode-response m r m.rcode;
  truncated = lib.set_rcode-truncated m r m.rcode;
  rcode = lib.set_rcode-rcode m r m.rcode;
  answer = lib.set_rcode-answer m r m.rcode;
  ns = lib.set_rcode-ns m r m.rcode;
  extra = lib.set_rcode-extra m r m.rcode;
}

relayed_twice : (lib : DnsLib) (r m : Msg) → IsReplyWith lib r m (relayed lib r (relayed lib r m))
relayed_twice lib r m =
    let one = relayed-IsReplyWith lib r m in
    let two = relayed-IsReplyWith lib r (relayed lib r m) in
    record {
      id = two.id;
      response = two.response;
      truncated = two.truncated ∙ one.truncated;
      rcode = two.rcode ∙ one.rcode;
      answer = two.answer ∙ one.answer;
      ns = two.ns ∙ one.ns;
      extra = two.extra ∙ one.extra;
    }

-- A reply is as useful as the answer whose code it carries.
useful-relayed :
    (lib : DnsLib) (r m : Msg) → useful (some m) ≡ true → useful (some (relayed lib r m)) ≡ true
unfolding useful
useful-relayed lib r m u = let one = relayed-IsReplyWith lib r m in rw (one.truncated, one.rcode) u

-- What the replies of a replica depend on: the plugins' settings and states, in their order.
pub record Replica (lru : CacheLib) : Type 0 where
  pub first_sibling : Bytes
  pub siblings : List Bytes
  pub store : lru.Cache
  pub zone : Bytes
  pub upstreams : List Bytes

-- The events around a query: the results of race's legs, in the order of their arrival; those of
-- the siblings' probes that are there before the upstream leg's, which comes at `now`; the rest.
pub record Around : Type 0 where
  pub heard : List LegResult
  pub unheard : List RaceEvent
  pub probed : List Timed
  pub now : ℕ
  pub late : List (ℕ × Event)

-- One query through the two handlers: `up` are the results of race on the detached writer, and `out`
-- those of peercache.
pub record Passage (lib : DnsLib) (lru : CacheLib) (s : Replica lru) (a : Around) (behind : Next)
    (local remote : Bytes) (r : Msg) : Type 0 where
  pub up : Served
  pub out : Served
  pub store : lru.Cache
  pub raced :
      race_serve lib s.zone s.upstreams behind none r (map result_of a.heard ++ a.unheard) ≡ some up
  pub contested :
      peercache_serve lib lru
        (λ _. up)
        none
        r
        (s.first_sibling ∷ s.siblings)
        a.now
        (arrivals a.probed ++ (a.now, result (upstream_leg (λ _. up) local remote r)) ∷ a.late)
        s.store
      ≡ some (store, out)

module _ (lib : DnsLib) (lru : CacheLib) (s : Replica lru) (a : Around) where
  upstream_leg-send :
      (local remote : Bytes) (r m : Msg)
      → upstream_leg (λ _. send lib none r m) local remote r ≡ record {
        source = upstream;
        msg = some (relayed lib r m);
        rcode = rcode_success;
        err = none;
      }
  unfolding upstream_leg send write_reply write_all write_msg new_writer
  upstream_leg-send local remote r m = refl

  race_serve-serves :
      (behind : Next) (r : Msg) (res : LegResult)
      → lib.zone_holds s.zone (lib.request_name r) ≡ true
      → All (IsLegOf lib r) a.heard
      → length a.heard ≡ length s.upstreams
      → Memᴰ res a.heard
      → useful res.msg ≡ true
      → (m : Msg) × (race_serve lib s.zone s.upstreams behind none r
            (map result_of a.heard ++ a.unheard)
          ≡ some (send lib none r m))
        × (useful (some m) ≡ true)
        × (lib.answers r m ≡ true)
        × ((one : LegResult) × Memᴰ one a.heard × (one.msg ≡ some m))
        × ((m.rcode ≡ rcode_success) ⊎ (m.rcode ≡ rcode_name_error))
  unfolding race_serve
  race_serve-serves behind r res zone legs all mem u =
      let (to, m, e, asks, u', (one, mo, em, et), code) =
        dispatch-serves lib none r s.upstreams a.heard a.unheard res legs all mem u in
      (m, rw (zone, e) refl, u', asks, (one, mo, em), code)

  -- A query that peercache gets while it knows siblings, in the zone of race: if no sibling has a
  -- useful answer before the upstream leg ends, every upstream's result comes in some order and one of
  -- them is useful, and neither the context ends before nor the write to the client fails, then the
  -- client is sent one message. It is a reply to its own request, with the code and the records of an
  -- answer to its question that some upstream gave. The store is handed the reply of race.
  pub Passage-answered :
      (behind : Next) (local remote : Bytes) (r : Msg) (res : LegResult)
      → lib.zone_holds s.zone (lib.request_name r) ≡ true
      → All (IsLegOf lib r) a.heard
      → length a.heard ≡ length s.upstreams
      → Memᴰ res a.heard
      → useful res.msg ≡ true
      → All IsLosing a.probed
      → length a.probed ≤ length (s.first_sibling ∷ s.siblings)
      → (m sent : Msg) × (p : Passage lib lru s a behind local remote r) × (lib.answers r m ≡ true)
        × ((one : LegResult) × Memᴰ one a.heard × (one.msg ≡ some m))
        × ((m.rcode ≡ rcode_success) ⊎ (m.rcode ≡ rcode_name_error))
        × IsReplyWith lib r m sent
        × (p.out ≡ record { written = sent ∷ []; rcode = rcode_success; err = none })
        × (p.store ≡ put lib lru a.now r (some (relayed lib r m)) s.store)
  unfolding peercache_serve send_on write_reply
  Passage-answered behind local remote r res zone legs all mem u losing more =
      let (m, e, u', asks, leg_of, code) = race_serve-serves behind r res zone legs all mem u in
      let leg = upstream_leg-send local remote r m in
      let peers = s.first_sibling ∷ s.siblings in
      (
        m,
        relayed lib r (relayed lib r m),
        record {
          up = send lib none r m;
          out = send_on lib none r (relayed lib r m) none;
          store = put lib lru a.now r (some (relayed lib r m)) s.store;
          raced = e;
          contested =
              (contest-first lib lru none r peers a.probed a.late s.store losing more).0 a.now
                (upstream_leg (λ _. send lib none r m) local remote r) (relayed lib r m)
                (ap (λ t. t.msg) leg) (useful-relayed lib r m u')
              ∙ rw leg refl;
        },
        asks,
        leg_of,
        code,
        relayed_twice lib r m,
        refl,
        refl,
      )
