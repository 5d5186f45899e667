-- ===== src/Race/Order.antt =====
-- Which upstream is heard first decides who wins, and never whether the client is served.
use homedns.Prelude.{
  ℕ, ◌≡◌, refl, sym, ap, ◌∙◌, inl, inr, ◌⊎◌, true, false, List, [], ◌∷◌, ◌++◌, map, none, some,
  Memᴰ, Bytes, All, arith, length, mem-All, Bool-cases, Option-cases,
}
use homedns.Dns.{Msg, DnsLib, Writer, useful, rcode_success, rcode_name_error}
use homedns.Race.{Connect, LegResult, Event, result, won, send, exchange, dispatch}
use homedns.Race.Exchange.{exchange_sound}
use homedns.Race.Dispatch.{first_useful, answer_of, dispatch-answer_of}

-- The result of a leg that asked `r`, whatever its upstream gave.
abbrev pub IsLegOf : DnsLib → Msg → LegResult → Type 0
IsLegOf lib r res =
    (to : Bytes) × (connect : ℕ → Connect) × (res ≡ (exchange lib to r connect).result)

useful-none : useful none ≡ true → ⊥
unfolding useful
useful-none h = cc

first_useful-skip :
    (one : LegResult) (rest : List LegResult)
    → useful one.msg ≡ false
    → first_useful (one ∷ rest) ≡ first_useful rest
unfolding first_useful
first_useful-skip one rest h = ground arith

first_useful-some :
    (results : List LegResult) {res : LegResult}
    → Memᴰ res results
    → useful res.msg ≡ true
    → (to : Bytes) × (m : Msg) × (first_useful results ≡ some (to, m))
      × (useful (some m) ≡ true)
      × ((one : LegResult) × Memᴰ one results × (one.msg ≡ some m) × (one.to ≡ to))
unfolding first_useful
first_useful-some [] m u = elim m [ ]
first_useful-some (one ∷ rest) mem u = elim (Bool-cases (useful one.msg)) [
  | inl wins ↦ elim (Option-cases one.msg) [
    | inl silent ↦ absurd (useful-none (ap useful (sym silent) ∙ wins))
    | inr (m, e) ↦
        let u' : useful (some m) ≡ true = ap useful (sym e) ∙ wins in
        (one.to, m, ground (arith, e, u'), u', (one, Memᴰ.head refl, e, refl))
  ]
  | inr loses ↦
      let (to, m, e, u', (other, mo, em, et)) =
        first_useful-some rest (in_rest one rest mem u loses) u in
      (to, m, first_useful-skip one rest loses ∙ e, u', (other, Memᴰ.tail mo, em, et))
]
  where
    in_rest :
        (one : LegResult) (rest : List LegResult) {res : LegResult}
        → Memᴰ res (one ∷ rest)
        → useful res.msg ≡ true
        → useful one.msg ≡ false
        → Memᴰ res rest
    in_rest one rest (Memᴰ.head e) u loses =
        absurd (ground (arith, ap (λ (t : LegResult). useful t.msg) e))
    in_rest one rest (Memᴰ.tail m) u loses = m

useful-rcode :
    (m : Msg) → useful (some m) ≡ true → (m.rcode ≡ rcode_success) ⊎ (m.rcode ≡ rcode_name_error)
unfolding useful
useful-rcode m u = ground arith

-- In whatever order the legs report, if one of them has a useful answer the client is sent the
-- useful answer of some leg, which answers the question asked and reports success or NXDOMAIN.
pub dispatch-serves :
    (lib : DnsLib) (w : Writer) (r : Msg) (proxies : List Bytes) (results : List LegResult)
    (late : List Event) (res : LegResult)
    → All (IsLegOf lib r) results
    → length results ≡ length proxies
    → Memᴰ res results
    → useful res.msg ≡ true
    → (to : Bytes) × (m : Msg) × (dispatch lib w r proxies (map result results ++ late)
        ≡ some (send lib w r m, won to))
      × (lib.answers r m ≡ true)
      × (useful (some m) ≡ true)
      × ((one : LegResult) × Memᴰ one results × (one.msg ≡ some m) × (one.to ≡ to))
      × ((m.rcode ≡ rcode_success) ⊎ (m.rcode ≡ rcode_name_error))
unfolding answer_of
dispatch-serves lib w r proxies results late res legs full mem u =
    let (to, m, e, u', (one, mo, em, et)) = first_useful-some results mem u in
    let (asked, connect, leg) = mem-All (IsLegOf lib r) legs mo in
    (
      to,
      m,
      dispatch-answer_of lib w r proxies results late full ∙ rw (e, answer_of) refl,
      ((exchange_sound lib asked r connect).0 m (ap (λ (t : LegResult). t.msg) (sym leg) ∙ em)).1,
      u',
      (one, mo, em, et),
      useful-rcode m u',
    )
