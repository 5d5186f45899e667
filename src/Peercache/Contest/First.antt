-- ===== src/Peercache/Contest/First.antt =====
-- `race` of the plugin peercache: who answers, and what is kept for siblings.
use homedns.Prelude.{
  ℕ, suc, ◌+◌, ◌-◌, ◌≤◌, ◌≡◌, refl, ◌∙◌, true, false, List, [], ◌∷◌, ◌++◌, map, Option, none, some,
  Bytes, All, arith, length, ap,
}
use native.Mathlib.Nat.{zero-add, suc-add}
use homedns.Dns.{Msg, Err, DnsLib, Writer, Next, useful, rcode_server_failure}
use homedns.Peercache.Store.{CacheLib, put}
use homedns.Peercache.Contest.{
  peer, upstream, LegResult, Event, done, result, upstream_leg, send_on, latest_upstream, hand_back,
  contest_loop, contest,
}

-- A result, with the time at which it comes.
abbrev pub Timed : Type 0
Timed = ℕ × LegResult

abbrev pub arrivals : List Timed → List (ℕ × Event)
arrivals = map (λ (t : Timed). (t.0, result t.1))

abbrev pub IsLosing : Timed → Type 0
IsLosing t = useful t.1.msg ≡ false

abbrev pub IsPeer : Timed → Type 0
IsPeer t = t.1.source ≡ peer

upstream_after : Option LegResult → List Timed → Option LegResult
upstream_after old [] = old
upstream_after old (t ∷ ts) = upstream_after (latest_upstream t.1 old) ts

upstream_after-peers :
    (old : Option LegResult) (ts : List Timed) → All IsPeer ts → upstream_after old ts ≡ old
unfolding upstream_after latest_upstream
upstream_after-peers old [] h = refl
upstream_after-peers old ((now, res) ∷ ts) h =
    ap (λ o. upstream_after o ts) (rw h.0 refl) ∙ upstream_after-peers old ts h.1

upstream_after-one :
    (before after : List Timed) (old : Option LegResult) (now : ℕ) (res : LegResult)
    → All IsPeer after
    → res.source ≡ upstream
    → upstream_after old (before ++ (now, res) ∷ after) ≡ some res
unfolding upstream_after latest_upstream
upstream_after-one [] after old now res h e =
    ap (λ o. upstream_after o after) (rw e refl) ∙ upstream_after-peers (some res) after h
upstream_after-one (t ∷ before) after old now res h e =
    upstream_after-one before after (latest_upstream t.1 old) now res h e

module _ (lib : DnsLib) (lru : CacheLib) (w : Writer) (r : Msg) where
  open lru use {Cache}

  -- A result that is not useful leaves the contest open.
  contest_loop-losing :
      (legs : ℕ) (before : List Timed) (events : List (ℕ × Event)) (up : Option LegResult)
      (c : Cache)
      → All IsLosing before
      → contest_loop lib lru w r (length before + legs) (arrivals before ++ events) up c
        ≡ contest_loop lib lru w r legs events (upstream_after up before) c
  unfolding contest_loop upstream_after
  contest_loop-losing legs [] events up c h = rw zero-add refl
  contest_loop-losing legs ((now, res) ∷ before) events up c h =
      rw suc-add
        (ground (arith, h.0, contest_loop-losing legs before events (latest_upstream res up) c h.1))

  -- The first useful answer, of a sibling or of the upstream, goes to the client with its leg's
  -- error and is handed to `put`; if the context ends before one comes, the client gets SERVFAIL
  -- with the context's error and the store is left alone. Neither depends on the legs that have
  -- not reported.
  pub contest-first :
      (peers : List Bytes) (before : List Timed) (late : List (ℕ × Event)) (c : Cache)
      → All IsLosing before
      → length before ≤ length peers
      → ((now : ℕ) (res : LegResult) (m : Msg)
          → res.msg ≡ some m
          → useful (some m) ≡ true
          → contest lib lru w r peers (arrivals before ++ (now, result res) ∷ late) c
            ≡ some (put lib lru now r (some m) c, send_on lib w r m res.err))
        × ((now : ℕ) (e : Err)
            → contest lib lru w r peers (arrivals before ++ (now, done e) ∷ late) c
              ≡ some (c, record { written = []; rcode = rcode_server_failure; err = some e }))
  unfolding contest contest_loop
  contest-first peers before late c losing more =
      let left = length peers - length before in
      let legs : length before + suc left ≡ suc (length peers) = omega arith in
      (
        λ now res m e u. rw (← legs) (
            contest_loop-losing (suc left) before ((now, result res) ∷ late) none c losing
            ∙ ground (arith, e, u)),
        λ now e.
            rw (← legs)
              (contest_loop-losing (suc left) before ((now, done e) ∷ late) none c losing),
      )

  -- When every leg has reported and no answer was useful, the client gets what the next plugin
  -- produced on a detached writer: its message, or its code and error if it wrote none. The store is
  -- left alone.
  pub contest-hand_back :
      (peers : List Bytes) (before after : List Timed) (next : Next) (local remote : Bytes)
      (now : ℕ) (late : List (ℕ × Event)) (c : Cache)
      → All IsLosing (before ++ (now, upstream_leg next local remote r) ∷ after)
      → All IsPeer after
      → length (before ++ (now, upstream_leg next local remote r) ∷ after) ≡ suc (length peers)
      → contest lib lru w r peers
          (arrivals (before ++ (now, upstream_leg next local remote r) ∷ after) ++ late)
          c
        ≡ some (c, hand_back lib w r (some (upstream_leg next local remote r)))
  unfolding contest contest_loop upstream_leg
  contest-hand_back peers before after next local remote now late c losing others all =
      let res = upstream_leg next local remote r in
      let ts = before ++ (now, res) ∷ after in
      let counts : length ts + 0 ≡ suc (length peers) = omega arith in
      rw (← counts) (
        contest_loop-losing 0 ts late none c losing
        ∙ ap (λ o. some (c, hand_back lib w r o))
            (upstream_after-one before after none now res others refl))
