-- ===== src/Fanout.antt =====
-- The goroutines of a query that is sent to several servers at once, as dispatch of
-- plugin/race/race.go and race of plugin/peercache/peercache.go start them: each leg sends its result
-- into a buffered channel, from which the handler reads until it returns.
-- A leg's exchange ends by its own timeout, and its send is the step behind that.
use homedns.Prelude.{
  ℕ, zero, suc, ◌≤◌, Bool-cases, ◌+◌, ◌*◌, ◌<◌, ◌≡◌, refl, sym, ap, ◌∙◌, ◌⊎◌, inl, inr, Bool, true,
  false, List, [], ◌∷◌, ◌++◌, arith, length, subst, All, All-append,
}
pub mod Handler

-- The legs that have not sent their results yet, what the channel holds, what the handler has read,
-- with the times of it, and whether the handler has left because the context ended.
pub record Fanout (R : Type 0) : Type 0 where
  pub running : List R
  pub channel : List R
  pub received : List (ℕ × R)
  pub left : Bool

abbrev pub new_fanout : {R : Type 0} → List R → Fanout R
new_fanout results = record { running = results; channel = []; received = []; left = false }

-- What bounds the steps of a run: a result is sent, and then read, and the handler leaves once.
abbrev pub stays : Bool → ℕ
stays true = 0
stays false = 1

abbrev pub weight : {R : Type 0} → Fanout R → ℕ
weight s = 2 * length s.running + length s.channel + stays s.left

-- `waits` is that the handler goes on reading after these results.
module _ {R : Type 0} (waits : List (ℕ × R) → Type 0) (cap : ℕ) where
  pub data Step (s : Fanout R) : Fanout R → Type 0 where
    send :
        (xs : List R) (res : R) (ys : List R)
        → s.running ≡ xs ++ res ∷ ys
        → length s.channel < cap
        → Step s (record s { running = xs ++ ys; channel = s.channel ++ res ∷ [] })
    receive :
        (now : ℕ) (res : R) (rest : List R)
        → s.channel ≡ res ∷ rest
        → s.left ≡ false
        → waits s.received
        → Step s (record s { channel = rest; received = s.received ++ (now, res) ∷ [] })

  -- `leave`: the handler sees the end of the context.
  pub data Reach (s : Fanout R) : Fanout R → Type 0 where
    here : Reach s s
    step : {t u : Fanout R} → Reach s t → Step t u → Reach s u
    leave :
        {t : Fanout R}
        → Reach s t
        → t.left ≡ false
        → waits t.received
        → Reach s (record t { left = true })

  length-middle :
      (xs : List R) (res : R) (ys : List R) → length (xs ++ res ∷ ys) ≡ suc (length (xs ++ ys))
  length-middle [] res ys = refl
  length-middle (x ∷ xs) res ys = ap suc (length-middle xs res ys)

  length-snoc : {A : Type 0} (xs : List A) (a : A) → length (xs ++ a ∷ []) ≡ suc (length xs)
  length-snoc [] a = refl
  length-snoc (x ∷ xs) a = ap suc (length-snoc xs a)

  abbrev total : Fanout R → ℕ
  total s = length s.running + length s.channel + length s.received

  -- A step leaves no result out, and makes the run shorter.
  Step-total : {s t : Fanout R} → Step s t → (total t ≡ total s) × (weight t < weight s)
  Step-total {s} (send xs res ys e room) =
      omega (arith, ap length e ∙ length-middle xs res ys, length-snoc s.channel res)
  Step-total {s} (receive now res rest e here_on on) =
      omega (arith, ap length e, length-snoc s.received (now, res))

  Reach-total : {s t : Fanout R} → Reach s t → total t ≡ total s
  Reach-total here = refl
  Reach-total (step r st) = (Step-total st).0 ∙ Reach-total r
  Reach-total (leave r here_on on) = Reach-total r

  -- With as many places as legs, a send never blocks, whether or not the handler still reads.
  send-room :
      {results : List R} {s : Fanout R} (xs : List R) (res : R) (ys : List R)
      → cap ≡ length results
      → Reach (new_fanout results) s
      → s.running ≡ xs ++ res ∷ ys
      → length s.channel < cap
  send-room xs res ys fits reach e =
      omega (arith, Reach-total reach, ap length e ∙ length-middle xs res ys)

  -- Whatever comes first at each moment, one of the legs or the handler can go on until `Q` holds, and
  -- it does hold after finitely many steps. The context may end at any of them.
  pub data Inevitable (Q : Fanout R → Type 0) : Fanout R → Type 0 where
    already : {s : Fanout R} → Q s → Inevitable Q s
    eventually :
        {s : Fanout R} (next : Fanout R)
        → Step s next
        → ((t : Fanout R) → Step s t → Inevitable Q t)
        → (s.left ≡ false → waits s.received → Inevitable Q (record s { left = true }))
        → Inevitable Q s

  pub Inevitable-map :
      {P Q : Fanout R → Type 0}
      → ((s : Fanout R) → P s → Q s)
      → {s : Fanout R} → Inevitable P s
      → Inevitable Q s
  Inevitable-map f (already p) = already (f _ p)
  Inevitable-map f (eventually next st later left_early) =
      eventually next st (λ t one. Inevitable-map f (later t one))
        (λ here_on on. Inevitable-map f (left_early here_on on))

  -- Every leg has sent its result, and the handler has left or does not wait.
  pub record IsFinal (s : Fanout R) : Type 0 where
    pub all_sent : s.running ≡ []
    pub no_wait : (s.left ≡ true) ⊎ (¬ waits s.received)

  module _ {results : List R} (fits : cap ≡ length results)
      (decides : (received : List (ℕ × R)) → waits received ⊎ (¬ waits received))
      (never : (received : List (ℕ × R)) → length received ≡ cap → ¬ waits received) where
    by_channel :
        (s : Fanout R)
        → Reach (new_fanout results) s
        → ((t : Fanout R) → Step s t → Inevitable IsFinal t)
        → (s.left ≡ false → waits s.received → Inevitable IsFinal (record s { left = true }))
        → s.running ≡ []
        → s.left ≡ false
        → waits s.received
        → (rs : List R) → s.channel ≡ rs
        → Inevitable IsFinal s
    by_channel s reach later left_early sent here_on on [] e =
        absurd (never s.received (omega (arith, Reach-total reach, ap length e, ap length sent)) on)
    by_channel s reach later left_early sent here_on on (res ∷ rest) e =
        eventually _ (receive 0 res rest e here_on on) later left_early

    by_running :
        (s : Fanout R)
        → Reach (new_fanout results) s
        → ((t : Fanout R) → Step s t → Inevitable IsFinal t)
        → (s.left ≡ false → waits s.received → Inevitable IsFinal (record s { left = true }))
        → (rs : List R) → s.running ≡ rs
        → Inevitable IsFinal s
    by_running s reach later left_early (res ∷ rs) e =
        eventually _ (send [] res rs e (send-room [] res rs fits reach e)) later left_early
    by_running s reach later left_early [] e = elim (Bool-cases s.left) [
      | inl gone ↦ already (record { all_sent = e; no_wait = inl gone })
      | inr here_on ↦ elim (decides s.received) [
        | inl on ↦ by_channel s reach later left_early e here_on on s.channel refl
        | inr off ↦ already (record { all_sent = e; no_wait = inr off })
      ]
    ]

    -- It comes to that if the handler never waits once it has read a result of each leg.
    pub Reach-IsFinal :
        (n : ℕ) (s : Fanout R) → Reach (new_fanout results) s → weight s < n → Inevitable IsFinal s
    Reach-IsFinal zero s reach less = absurd (omega arith)
    Reach-IsFinal (suc n) s reach less =
        by_running s reach
          (λ t st. Reach-IsFinal n t (step reach st) (omega (arith, (Step-total st).1)))
          (λ here_on on.
            Reach-IsFinal n (record s { left = true }) (leave reach here_on on)
              (omega (arith, ap stays here_on)))
          s.running refl
