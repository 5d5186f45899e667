-- ===== src/Peercache/Replicas.antt =====
-- Two replicas: one asks, and its sibling answers from its store.
use homedns.Prelude.{
  ℕ, ◌+◌, ◌*◌, ◌≤◌, ◌≡◌, ◌≢◌, sym, ap, ◌∙◌, true, List, ◌∷◌, ◌++◌, none, some, Memᴰ, Bytes, All,
  arith, length,
}
use mathlib.Core.Option.{some-injective}
use homedns.Dns.{Msg, DnsLib, Writer, useful, rcode_refused}
use homedns.Peercache.Store.{
  CacheLib, second, min_serve_ttl, min_ttl, storable, key, put, serve_entry,
}
use homedns.Peercache.Store.Lifetime.{Put, Call, run, log_of, get-serves}
use homedns.Peercache.Listener.{NetLib, serve_probe}
use homedns.Peercache.Listener.Probe.{IsSibling, serve_probe-answers}
use homedns.Peercache.Contest.{Event, result, LegResult, replied, probe, contest, send_on}
use homedns.Peercache.Contest.First.{Timed, IsLosing, arrivals, contest-first}
pub mod Circle

-- A refusal ends no contest.
useful-not_refused : (m : Msg) → useful (some m) ≡ true → m.rcode ≢ rcode_refused
unfolding useful
useful-not_refused m u e = ground arith

-- What a sibling puts into its store and what it serves of it.
pub record IsFromStore (lib : DnsLib) (lru : CacheLib) (log : List Put) (now : ℕ) (r m : Msg)
    : Type 0 where
  pub source : Put
  pub logged : Memᴰ source log
  pub same_key : key lib lru source.request ≡ key lib lru r
  pub held : storable lib lru source.request (some source.msg) ≡ true
  pub least : min_ttl source.msg ≡ some source.ttl
  pub in_time : min_serve_ttl + now ≤ source.ttl * second + source.now
  pub served :
      m
      ≡ serve_entry lib lru now r
          (record { msg = source.msg; stored = source.now; orig_ttl = source.ttl })

-- What the probe of a replica brings back from a sibling, whose address book, clock and store these
-- are: the message of `serveProbe` goes over the network as it is.
unfoldable pub ask_sibling :
    (lib : DnsLib) (lru : CacheLib) → NetLib → List Bytes → ℕ → Bytes → Msg → lru.Cache → LegResult
unfolding probe serve_probe
ask_sibling lib lru net peers now remote r c =
    (probe (replied (serve_probe lib lru net peers now remote r c).1)).0

module _ (lib : DnsLib) (lru : CacheLib) (net : NetLib) (w : Writer) (r : Msg) where
  open lru use {Cache, new_cache}

  -- If a sibling's answer is useful and comes first, the client is sent it and the replica puts it into
  -- its own store. The sibling knows the replica's address, and it took the answer from its store: an
  -- answer that it had put there under the same key, as a storable message with its least TTL, of
  -- which five seconds or more are left.
  pub ask_sibling-serves :
      (book : List Bytes) (remote : Bytes) (calls : List Call) (n then now : ℕ) (peers : List Bytes)
      (before : List Timed) (late : List (ℕ × Event)) (c : Cache) (m : Msg)
      → All IsLosing before
      → length before ≤ length peers
      → (ask_sibling lib lru net book then remote r (run lib lru calls (new_cache n))).msg ≡ some m
      → useful (some m) ≡ true
      → (contest lib lru w r peers
            (arrivals before
              ++ (
                now,
                result
                    (ask_sibling lib lru net book then remote r (run lib lru calls (new_cache n))),
              )
                ∷ late)
            c
          ≡ some (put lib lru now r (some m) c, send_on lib w r m none))
        × IsSibling net remote book
        × IsFromStore lib lru (log_of lib lru calls) then r m
  unfolding ask_sibling probe
  ask_sibling-serves book remote calls n then now peers before late c m losing more asked good =
      let held = run lib lru calls (new_cache n) in
      let same : (serve_probe lib lru net book then remote r held).1 ≡ m =
        some-injective _ _ asked in
      let (known, single, got) =
        serve_probe-answers lib lru net book then remote r held
          (λ refused. useful-not_refused m good (sym (ap (λ t. t.rcode) same) ∙ refused)) in
      let (p, logged, key_of, held_ok, least, in_time, served) =
        get-serves lib lru calls n then r m (got ∙ asked) in
      (
        (contest-first lib lru w r peers before late c losing more).0 now
            (ask_sibling lib lru net book then remote r held) m asked good,
        known,
        record {
          source = p;
          logged = logged;
          same_key = key_of;
          held = held_ok;
          least = least;
          in_time = in_time;
          served = served;
        },
      )
