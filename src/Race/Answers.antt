-- ===== src/Race/Answers.antt =====
-- What the client of `dispatch` gets when every leg has reported, written out.
use homedns.Prelude.{
  ◌≡◌, refl, sym, ap, subst, ◌∙◌, ◌⊎◌, inl, inr, true, false, List, [], ◌∷◌, ◌++◌, map, Option,
  none, some, Bytes, All, arith, length, Bool-cases, Option-cases,
}
use homedns.Dns.{Msg, Err, DnsLib, Served, Writer, write_reply, useful, no_answer, plugin_error}
use homedns.Race.{
  LegResult, Event, result, Resolved, won, fell_back, failed, newer, send, give_up, dispatch,
}
use homedns.Race.Dispatch.{answer_of, first_useful, last_some, msgs_of, errs_of, dispatch-answer_of}

-- A message that is written to the client, or the writer's error.
abbrev pub sent : Writer → Msg → Served
sent none m = record { written = m ∷ []; rcode = 0; err = none }
sent (some e) m = record { written = []; rcode = 2; err = some e }

abbrev pub IsUseless : LegResult → Type 0
IsUseless res = useful res.msg ≡ false

abbrev pub HasNoMsg : LegResult → Type 0
HasNoMsg res = res.msg ≡ none

abbrev pub HasNoErr : LegResult → Type 0
HasNoErr res = res.err ≡ none

-- The four ways in which a query ends, from the results in the order of their arrival: with the
-- first useful message, else with the last message of all, else with the last error, else with the
-- error that no upstream answered.
pub data IsAnswer (lib : DnsLib) (w : Writer) (r : Msg)
    : List LegResult → Served × Resolved → Type 0 where
  by_first :
      (before : List LegResult) (res : LegResult) (after : List LegResult) (m : Msg)
      → All IsUseless before
      → res.msg ≡ some m
      → useful (some m) ≡ true
      → IsAnswer lib w r (before ++ res ∷ after) (sent w (lib.set_rcode m r m.rcode), won res.to)
  by_last_msg :
      (before : List LegResult) (res : LegResult) (after : List LegResult) (m : Msg)
      → All IsUseless (before ++ res ∷ after)
      → res.msg ≡ some m
      → All HasNoMsg after
      → IsAnswer lib w r (before ++ res ∷ after) (sent w (lib.set_rcode m r m.rcode), fell_back)
  by_last_err :
      (before : List LegResult) (res : LegResult) (after : List LegResult) (e : Err)
      → All HasNoMsg (before ++ res ∷ after)
      → res.err ≡ some e
      → All HasNoErr after
      → IsAnswer lib w r
          (before ++ res ∷ after)
          (record { written = []; rcode = 2; err = some (plugin_error e) }, failed)
  by_nothing :
      (results : List LegResult)
      → All HasNoMsg results
      → All HasNoErr results
      → IsAnswer lib w r results
          (record { written = []; rcode = 2; err = some (plugin_error no_answer) }, failed)

-- The result that a field's last value is from.
record IsLast {A : Type 0} (field : LegResult → Option A) (results : List LegResult) (a : A)
    : Type 0 where
  before : List LegResult
  res : LegResult
  after : List LegResult
  split : results ≡ before ++ res ∷ after
  value : field res ≡ some a
  silent : All (λ (t : LegResult). field t ≡ none) after

IsLast-cons :
    {A : Type 0} (field : LegResult → Option A) (first : LegResult) {results : List LegResult}
    {a : A}
    → IsLast field results a
    → IsLast field (first ∷ results) a
IsLast-cons field first l = record {
  before = first ∷ l.before;
  res = l.res;
  after = l.after;
  split = ap (λ (t : List LegResult). first ∷ t) l.split;
  value = l.value;
  silent = l.silent;
}

last_some-IsLast :
    {A : Type 0} (field : LegResult → Option A) (results : List LegResult) (old : Option A)
    → ((last_some old (map field results) ≡ old) × All (λ (t : LegResult). field t ≡ none) results)
      ⊎ ((a : A) × (last_some old (map field results) ≡ some a) × IsLast field results a)
unfolding last_some newer
last_some-IsLast field [] old = inl (refl, tt)
last_some-IsLast field (res ∷ results) old = elim (Option-cases (field res)) [
  | inl silent ↦ elim (last_some-IsLast field results old) [
    | inl (e, none_left) ↦ inl (rw silent e, (silent, none_left))
    | inr (a, e, l) ↦ inr (a, rw silent e, IsLast-cons field res l)
  ]
  | inr (a, at) ↦ elim (last_some-IsLast field results (some a)) [
    | inl (e, none_left) ↦ inr (
      a,
      rw at e,
      record {
        before = [];
        res = res;
        after = results;
        split = refl;
        value = at;
        silent = none_left;
      },
    )
    | inr (b, e, l) ↦ inr (b, rw at e, IsLast-cons field res l)
  ]
]

-- The first result with a useful message.
record IsFirst (results : List LegResult) (to : Bytes) (m : Msg) : Type 0 where
  before : List LegResult
  res : LegResult
  after : List LegResult
  split : results ≡ before ++ res ∷ after
  losing : All IsUseless before
  value : res.msg ≡ some m
  wins : useful (some m) ≡ true
  server : res.to ≡ to

useless-none : (o : Option Msg) → o ≡ none → useful o ≡ false
unfolding useful
useless-none o e = rw e refl

first_useful-cases :
    (results : List LegResult)
    → ((first_useful results ≡ none) × All IsUseless results)
      ⊎ ((to : Bytes) × (m : Msg) × (first_useful results ≡ some (to, m)) × IsFirst results to m)
unfolding first_useful
first_useful-cases [] = inl (refl, tt)
first_useful-cases (res ∷ results) = elim (Bool-cases (useful res.msg)) [
  | inl wins ↦ elim (Option-cases res.msg) [
    | inl silent ↦ absurd (cc (useless-none res.msg silent, wins))
    | inr (m, e) ↦
        let u : useful (some m) ≡ true = ap useful (sym e) ∙ wins in
        inr (
          res.to,
          m,
          ground (arith, e, u),
          record {
            before = [];
            res = res;
            after = results;
            split = refl;
            losing = tt;
            value = e;
            wins = u;
            server = refl;
          },
        )
  ]
  | inr loses ↦ elim (first_useful-cases results) [
    | inl (e, others) ↦ inl (ground (arith, loses, e), (loses, others))
    | inr (to, m, e, f) ↦ inr (
      to,
      m,
      ground (arith, loses, e),
      record {
        before = res ∷ f.before;
        res = f.res;
        after = f.after;
        split = ap (λ (t : List LegResult). res ∷ t) f.split;
        losing = (loses, f.losing);
        value = f.value;
        wins = f.wins;
        server = f.server;
      },
    )
  ]
]

module _ (lib : DnsLib) (w : Writer) (r : Msg) where
  send-sent : (m : Msg) → send lib w r m ≡ sent w (lib.set_rcode m r m.rcode)
  unfolding send write_reply
  send-sent m = by_writer w
    where
      by_writer : (v : Writer) → send lib v r m ≡ sent v (lib.set_rcode m r m.rcode)
      by_writer none = refl
      by_writer (some e) = refl

  give_up-IsAnswer :
      (results : List LegResult)
      → All IsUseless results
      → IsAnswer lib w r results
          (give_up lib w r (last_some none (msgs_of results)) (last_some none (errs_of results)))
  unfolding give_up
  give_up-IsAnswer results losing = elim (last_some-IsLast (λ res. res.msg) results none) [
    | inr (m, e, l) ↦
        rw (e, give_up, send-sent m)
          (subst (λ t. IsAnswer lib w r t (sent w (lib.set_rcode m r m.rcode), fell_back))
            (sym l.split)
            (by_last_msg l.before l.res l.after m (subst (All IsUseless) l.split losing) l.value
              l.silent))
    | inl (e, no_msg) ↦ elim (last_some-IsLast (λ res. res.err) results none) [
      | inr (err, f, l) ↦
          rw (e, f, give_up)
            (subst
              (λ t.
                IsAnswer lib w r t
                  (record { written = []; rcode = 2; err = some (plugin_error err) }, failed))
              (sym l.split)
              (by_last_err l.before l.res l.after err (subst (All HasNoMsg) l.split no_msg) l.value
                l.silent))
      | inl (f, no_err) ↦ rw (e, f, give_up) (by_nothing results no_msg no_err)
    ]
  ]

  -- When every leg has reported, the client is sent the first useful message in the order of arrival,
  -- or else the last message that came; if none came, nothing is written and the handler ends with
  -- SERVFAIL and the last error, or with that of no answer if there is none. A message is sent as the
  -- reply to the request under its own code; if the write fails, the handler gives SERVFAIL and the
  -- writer's error.
  pub dispatch-IsAnswer :
      (proxies : List Bytes) (results : List LegResult) (late : List Event)
      → length results ≡ length proxies
      → (out : Served × Resolved) × (dispatch lib w r proxies (map result results ++ late)
          ≡ some out)
        × IsAnswer lib w r results out
  unfolding answer_of
  dispatch-IsAnswer proxies results late full = (
    answer_of lib w r results none none,
    dispatch-answer_of lib w r proxies results late full,
    elim (first_useful-cases results) [
      | inl (e, losing) ↦ rw (e, answer_of) (give_up-IsAnswer results losing)
      | inr (to, m, e, f) ↦
          rw (e, answer_of, send-sent m, ← f.server)
            (subst (λ t. IsAnswer lib w r t (sent w (lib.set_rcode m r m.rcode), won f.res.to))
              (sym f.split) (by_first f.before f.res f.after m f.losing f.value f.wins))
    ],
  )
