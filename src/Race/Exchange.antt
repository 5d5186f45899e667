-- ===== src/Race/Exchange.antt =====
-- One leg: the attempts over stale connections, and what is accepted as an answer.
use homedns.Prelude.{
  ℕ, zero, suc, ◌+◌, ◌≤◌, ◌<◌, ◌≡◌, refl, sym, subst, ap, ◌∙◌, inl, inr, ◌↔◌, true, none, some,
  Bytes, arith, Bool-cases,
}
use homedns.Dns.{Msg, Err, DnsLib, no_answer, mismatch}
use homedns.Race.{
  max_connect_attempts, Connect, reply, failure, stale_conn, LegResult, connect_loop, judge,
  exchange,
}

module _ (connect : ℕ → Connect) where
  -- The outcome is one of the attempts.
  connect_loop-attempt :
      (n i : ℕ) (last : Connect)
      → (k : ℕ) × (i ≤ k) × (k < i + suc n) × ((connect_loop (suc n) connect i last).0 ≡ connect k)
  unfolding connect_loop
  connect_loop-attempt zero i last = elim (Bool-cases (stale_conn (connect i))) [
    | inl stale ↦ rw (stale, connect_loop) (i, omega arith, omega arith, refl)
    | inr fresh ↦ rw (fresh, connect_loop) (i, omega arith, omega arith, refl)
  ]
  connect_loop-attempt (suc n) i last = elim (Bool-cases (stale_conn (connect i))) [
    | inl stale ↦
        let (k, le, lt, e) = connect_loop-attempt n (suc i) (connect i) in
        rw (stale, connect_loop) (k, omega arith, omega arith, e)
    | inr fresh ↦ rw (fresh, connect_loop) (i, omega arith, omega arith, refl)
  ]

module _ (lib : DnsLib) (to : Bytes) (r : Msg) (connect : ℕ → Connect) where
  -- The result of a leg is what `exchange` makes of one of its attempts.
  exchange-attempt :
      (k : ℕ) × (k < max_connect_attempts)
      × ((exchange lib to r connect).result ≡ (judge lib to r (connect k)).0)
  unfolding exchange
  exchange-attempt =
      let (k, le, lt, e) = connect_loop-attempt connect 9 0 (failure no_answer) in
      (k, omega arith, ap (λ t. (judge lib to r t).0) e)

  judge-msg :
      (c : Connect) {m : Msg}
      → (judge lib to r c).0.msg ≡ some m
      → (c ≡ reply m) × (lib.answers r m ≡ true)
  unfolding judge
  judge-msg (failure e) h = cc
  judge-msg (reply ret) {m} h = elim (Bool-cases (lib.answers r ret)) [
    | inl answered ↦
        let e : ret ≡ m = ground arith in
        (ap reply e, subst (λ t. lib.answers r t ≡ true) e answered)
    | inr other ↦ ground arith
  ]

  judge-either :
      (c : Connect)
      → ((judge lib to r c).0.msg ≡ none) ↔ ((e : Err) × ((judge lib to r c).0.err ≡ some e))
  unfolding judge
  judge-either (failure e) = (λ _. (e, refl), λ _. refl)
  judge-either (reply ret) = elim (Bool-cases (lib.answers r ret)) [
    | inl answered ↦ rw answered (λ h. cc, λ (e, h). cc)
    | inr other ↦ rw other (λ _. (mismatch, refl), λ _. refl)
  ]

  -- A leg reports a message only if an attempt brought it and it answers the question asked, and it
  -- reports an error exactly if it reports no message.
  pub exchange_sound :
      let leg = exchange lib to r connect in
      ((m : Msg)
        → leg.result.msg ≡ some m
        → ((k : ℕ) × (k < max_connect_attempts) × (connect k ≡ reply m)) × (lib.answers r m ≡ true))
      × ((leg.result.msg ≡ none) ↔ ((e : Err) × (leg.result.err ≡ some e)))
  exchange_sound =
      let (k, lt, e) = exchange-attempt in
      let outcome =
        λ (m : Msg) (h : (judge lib to r (connect k)).0.msg ≡ some m). judge-msg (connect k) h in
      (
        λ m h.
            let (came, answered) = outcome m (ap (λ (t : LegResult). t.msg) (sym e) ∙ h) in
            ((k, lt, came), answered),
        subst (λ (t : LegResult). (t.msg ≡ none) ↔ ((e : Err) × (t.err ≡ some e))) (sym e)
            (judge-either (connect k)),
      )
