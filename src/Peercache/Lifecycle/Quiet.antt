-- ===== src/Peercache/Lifecycle/Quiet.antt =====
-- What `shutdown` waits for.
use homedns.Prelude.{ℕ, ◌+◌, ◌≡◌, refl, ap, ◌∙◌, Bool, true, false, Bytes, arith}
use homedns.Corefile.{TextLib}
use homedns.Peercache.Discovery.{Peers, Cluster}
use homedns.Peercache.Listener.{Bound, socket, gave_up, bind}
use homedns.Peercache.Lifecycle.{
  Listening, binding, serving, Discovering, connecting, watching, fresh, stopping, stopped, Process,
  new_process, start, connects, listen, connect, end_listener, end_discoverer, Step, started, bound,
  failed, unbound, connected, event, unwatched, skip, stop, join, Reach, here, step,
}

-- How many goroutines a place stands for.
abbrev pub of_listener : Listening → ℕ
of_listener Listening.unlaunched = 0
of_listener binding = 1
of_listener serving = 1
of_listener Listening.closed = 0

abbrev pub of_discoverer : Discovering → ℕ
of_discoverer Discovering.unlaunched = 0
of_discoverer connecting = 1
of_discoverer watching = 1
of_discoverer Discovering.closed = 0

-- The WaitGroup counts the goroutines that run. None runs before the start or behind the end, and
-- whoever waits for them has cancelled the context.
pub record IsCounted (p : Process) : Type 0 where
  pub counts : p.running_count ≡ of_listener p.listener + of_discoverer p.discoverer
  pub before : p.caller ≡ fresh → p.running_count ≡ 0
  pub after : p.caller ≡ stopped → p.running_count ≡ 0
  pub cancels : p.caller ≡ stopping → p.cancelled ≡ true

module _ (txt : TextLib) (port : ℕ) (self : Bytes) where
  start-IsCounted : {p : Process} → p.caller ≡ fresh → IsCounted p → IsCounted (start self p)
  unfolding start
  start-IsCounted e o = ground (arith, o)

  listen-IsCounted :
      (b : Bound) {p : Process} → p.listener ≡ binding → IsCounted p → IsCounted (listen b p)
  unfolding listen
  listen-IsCounted (socket i) e o = ground (arith, o)
  listen-IsCounted gave_up e o = ground (arith, o)
  listen-IsCounted Bound.stopped e o = ground (arith, o)

  connect-IsCounted :
      (k : Bool) {p : Process} → p.discoverer ≡ connecting → IsCounted p → IsCounted (connect k p)
  unfolding connect
  connect-IsCounted true e o = ground (arith, o)
  connect-IsCounted false e o = ground (arith, o)

  Step-IsCounted : {p q : Process} → Step txt port self p q → IsCounted p → IsCounted q
  Step-IsCounted (started e) o = start-IsCounted e o
  Step-IsCounted (bound free ends live e) o = listen-IsCounted (bind free ends) e o
  Step-IsCounted (failed e) o = ground (arith, o)
  Step-IsCounted (unbound e c) o = ground (arith, o)
  Step-IsCounted (connected k e) o = connect-IsCounted (connects k) e o
  Step-IsCounted (event pods e) o = ground (arith, o)
  Step-IsCounted (unwatched e c) o = ground (arith, o)
  Step-IsCounted (skip e) o = ground (arith, o)
  Step-IsCounted (stop e) o = ground (arith, o)
  Step-IsCounted (join e z) o = ground (arith, o)

  Reach-IsCounted : {p q : Process} → Reach txt port self p q → IsCounted p → IsCounted q
  Reach-IsCounted here o = o
  Reach-IsCounted (step r s) o = Step-IsCounted s (Reach-IsCounted r o)

  new_process-IsCounted : IsCounted new_process
  new_process-IsCounted = ground arith

  -- No goroutine runs, and the peer set is the one given.
  pub record IsQuiet (peers : Peers) (p : Process) : Type 0 where
    pub ended : p.caller ≡ stopped
    pub no_listener : of_listener p.listener ≡ 0
    pub no_discoverer : of_discoverer p.discoverer ≡ 0
    pub same : p.peers ≡ peers

  Step-IsQuiet :
      {peers : Peers} {p q : Process} → Step txt port self p q → IsQuiet peers p → IsQuiet peers q
  Step-IsQuiet (started e) o = ground (arith, o)
  Step-IsQuiet (bound free ends live e) o = ground (arith, o)
  Step-IsQuiet (failed e) o = ground (arith, o)
  Step-IsQuiet (unbound e c) o = ground (arith, o)
  Step-IsQuiet (connected k e) o = ground (arith, o)
  Step-IsQuiet (event pods e) o = ground (arith, o)
  Step-IsQuiet (unwatched e c) o = ground (arith, o)
  Step-IsQuiet (skip e) o = ground (arith, o)
  Step-IsQuiet (stop e) o = ground (arith, o)
  Step-IsQuiet (join e z) o = ground (arith, o)

  Reach-IsQuiet :
      {peers : Peers} {p q : Process} → Reach txt port self p q → IsQuiet peers p → IsQuiet peers q
  Reach-IsQuiet here o = o
  Reach-IsQuiet (step r s) o = Step-IsQuiet s (Reach-IsQuiet r o)

  -- A listener that runs can end once the context is done.
  listener_ends :
      {p : Process}
      → p.cancelled ≡ true
      → (at : Listening) → p.listener ≡ at
      → (q : Process) × Reach txt port self p q
        × (q.caller ≡ p.caller)
        × (q.cancelled ≡ true)
        × (of_listener q.listener ≡ 0)
        × (q.discoverer ≡ p.discoverer)
  unfolding listen bind
  listener_ends {p} c Listening.unlaunched at = (p, here, refl, c, ap of_listener at, refl)
  listener_ends {p} c Listening.closed at = (p, here, refl, c, ap of_listener at, refl)
  listener_ends {p} c serving at = (end_listener p, step here (unbound at c), refl, c, refl, refl)
  listener_ends {p} c binding at =
      (_, step here (bound (λ i. false) (λ i. true) (λ j e. c) at), refl, c, refl, refl)

  discoverer_ends :
      {p : Process}
      → p.cancelled ≡ true
      → (at : Discovering) → p.discoverer ≡ at
      → (q : Process) × Reach txt port self p q
        × (q.caller ≡ p.caller)
        × (of_discoverer q.discoverer ≡ 0)
        × (q.listener ≡ p.listener)
  unfolding connect connects
  discoverer_ends {p} c Discovering.unlaunched at = (p, here, refl, ap of_discoverer at, refl)
  discoverer_ends {p} c Discovering.closed at = (p, here, refl, ap of_discoverer at, refl)
  discoverer_ends {p} c watching at =
      (end_discoverer p, step here (unwatched at c), refl, refl, refl)
  discoverer_ends {p} c connecting at =
      let k : Cluster = record {
        namespace_read = true;
        config_built = true;
        client_built = true;
        watched = true;
      } in
      (_, step (step here (connected k at)) (unwatched refl c), refl, refl, refl)

  Reach-append :
      {p q r : Process}
      → Reach txt port self p q
      → Reach txt port self q r
      → Reach txt port self p r
  Reach-append a here = a
  Reach-append a (step b s) = step (Reach-append a b) s

  -- A `shutdown` that waits can return from wherever the two goroutines stand: each can end once the
  -- context is done, and the WaitGroup then counts none.
  pub stopping_returns :
      {p : Process}
      → Reach txt port self new_process p
      → p.caller ≡ stopping
      → (q : Process) × Reach txt port self p q × (q.caller ≡ stopped)
  stopping_returns {p} reached waits =
      let counted = Reach-IsCounted reached new_process-IsCounted in
      let (a, to_a, call_a, done, idle, same_a) =
        listener_ends (counted.cancels waits) p.listener refl in
      let (b, to_b, call_b, idle_b, same_b) = discoverer_ends done a.discoverer refl in
      let all = Reach-append to_a to_b in
      let c = Reach-IsCounted (Reach-append reached all) new_process-IsCounted in
      let none_runs : b.running_count ≡ 0 =
        omega (arith, c.counts, idle_b, ap of_listener same_b, idle) in
      (record b { caller = stopped }, step all (join (call_b ∙ call_a ∙ waits) none_runs), refl)

  -- Once `shutdown` has returned, neither `listen` nor `discover` runs, and the peer set changes no
  -- more.
  pub shutdown-IsQuiet :
      {p q : Process}
      → Reach txt port self new_process p
      → p.caller ≡ stopped
      → Reach txt port self p q
      → IsQuiet p.peers q
  shutdown-IsQuiet reached ended later =
      let counted = Reach-IsCounted reached new_process-IsCounted in
      let none_runs = counted.after ended in
      Reach-IsQuiet later (record {
        ended = ended;
        no_listener = omega (arith, counted.counts, none_runs);
        no_discoverer = omega (arith, counted.counts, none_runs);
        same = refl;
      })
