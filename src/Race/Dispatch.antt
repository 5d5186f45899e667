-- ===== src/Race/Dispatch.antt =====
-- `dispatch` against its description: the first useful answer, else the last message, else the
-- last error.
use homedns.Prelude.{
  ℕ, suc, ◌+◌, ◌-◌, ◌<◌, ◌≡◌, refl, ◌∙◌, true, false, List, [], ◌∷◌, ◌++◌, map, Option, none, some,
  Bytes, All, arith, length, if◌then◌else◌,
}
use native.Mathlib.Nat.{zero-add, suc-add}
use homedns.Dns.{Msg, Err, DnsLib, Served, Writer, useful, rcode_server_failure}
use homedns.Race.{
  LegResult, Event, done, result, Resolved, won, cancelled, send, newer, give_up, dispatch_loop,
  dispatch,
}

-- The upstream and the message of the first useful result.
unfoldable pub first_useful : List LegResult → Option (Bytes × Msg)
first_useful [] = none
first_useful (res ∷ rest) = elim res.msg [
  | none ↦ first_useful rest
  | some m ↦ if useful (some m) then some (res.to, m) else first_useful rest
]

unfoldable pub last_some {ℓ} : {A : Type ℓ} → Option A → List (Option A) → Option A
unfolding newer
last_some old [] = old
last_some old (o ∷ os) = last_some (newer o old) os

abbrev pub msgs_of : List LegResult → List (Option Msg)
msgs_of = map (λ (res : LegResult). res.msg)

abbrev pub errs_of : List LegResult → List (Option Err)
errs_of = map (λ (res : LegResult). res.err)

module _ (lib : DnsLib) (w : Writer) (r : Msg) where
  -- The answer to the client, from the results in the order in which they come.
  unfoldable pub answer_of : List LegResult → Option Msg → Option Err → Served × Resolved
  answer_of results fallback last_err = elim (first_useful results) [
    | some (to, m) ↦ (send lib w r m, won to)
    | none ↦
        give_up lib w r (last_some fallback (msgs_of results))
          (last_some last_err (errs_of results))
  ]

  dispatch_loop-answer_of :
      (results : List LegResult) (late : List Event) (fallback : Option Msg) (last_err : Option Err)
      → dispatch_loop lib w r (length results) (map result results ++ late) fallback last_err
        ≡ some (answer_of results fallback last_err)
  unfolding dispatch_loop answer_of first_useful last_some
  dispatch_loop-answer_of [] late fallback last_err = refl
  dispatch_loop-answer_of (res ∷ results) late fallback last_err = ground (
    arith,
    dispatch_loop-answer_of results late (newer res.msg fallback) (newer res.err last_err),
  )

  -- When every leg has reported, the client gets the first useful answer in the order of arrival,
  -- or else the last message that came, or else SERVFAIL with the last error.
  pub dispatch-answer_of :
      (proxies : List Bytes) (results : List LegResult) (late : List Event)
      → length results ≡ length proxies
      → dispatch lib w r proxies (map result results ++ late) ≡ some (answer_of results none none)
  unfolding dispatch
  dispatch-answer_of proxies results late e =
      rw (← e) (dispatch_loop-answer_of results late none none)

  -- A result that is not useful leaves the contest open.
  dispatch_loop-losing :
      (legs : ℕ) (before : List LegResult) (events : List Event) (fallback : Option Msg)
      (last_err : Option Err)
      → All (λ (res : LegResult). useful res.msg ≡ false) before
      → dispatch_loop lib w r (length before + legs) (map result before ++ events) fallback last_err
        ≡ dispatch_loop lib w r legs events
            (last_some fallback (msgs_of before))
            (last_some last_err (errs_of before))
  unfolding dispatch_loop last_some
  dispatch_loop-losing legs [] events fallback last_err h = rw zero-add refl
  dispatch_loop-losing legs (res ∷ before) events fallback last_err h = rw suc-add (
      ground (
        arith,
        h.0,
        dispatch_loop-losing legs before events (newer res.msg fallback) (newer res.err last_err)
            h.1,
      ))

  -- The contest ends with the first useful answer, and with the end of the context, whatever the
  -- legs that have not reported do later.
  pub dispatch-ends :
      (proxies : List Bytes) (before : List LegResult) (late : List Event)
      → All (λ (res : LegResult). useful res.msg ≡ false) before
      → length before < length proxies
      → ((res : LegResult) (m : Msg)
          → res.msg ≡ some m
          → useful (some m) ≡ true
          → dispatch lib w r proxies (map result before ++ result res ∷ late)
            ≡ some (send lib w r m, won res.to))
        × ((e : Err)
            → dispatch lib w r proxies (map result before ++ done e ∷ late)
              ≡ some
                  (record { written = []; rcode = rcode_server_failure; err = some e }, cancelled))
  unfolding dispatch dispatch_loop
  dispatch-ends proxies before late losing more =
      let left = length proxies - length before - 1 in
      let legs : length before + suc left ≡ length proxies = omega arith in
      (
        λ res m e u. rw (← legs) (
            dispatch_loop-losing (suc left) before (result res ∷ late) none none losing
            ∙ ground (arith, e, u)),
        λ e. rw (← legs) (dispatch_loop-losing (suc left) before (done e ∷ late) none none losing),
      )
