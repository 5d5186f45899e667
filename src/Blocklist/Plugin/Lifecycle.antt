-- ===== src/Blocklist/Plugin/Lifecycle.antt =====
-- `start` and `shutdown`: the refresh goroutine and the timer from the start of the plugin to its
-- end. A step is a whole call, or the choice of a `select`.
use homedns.Prelude.{ℕ, ◌≡◌, ◌≢◌, refl, ◌∙◌, ◌⊎◌, Bool, true, false, [], none, Bytes, arith}
use homedns.Prelude.Text.{StdLib}
use homedns.Dns.{Msg, DnsLib, Next, Writer}
use homedns.Blocklist.Source.{Attempt}
use homedns.Blocklist.Plugin.{
  Config, Blocklist, new_blocklist, serve_dns, reload, fail_open_after_timeout,
}
use homedns.Blocklist.Plugin.Serve.{serve_dns-counts}

-- Where the refresh goroutine stands: in `reload`, in its `select`, or behind its end, which closes
-- the channel `done`.
pub data Refresher : Type 0 where
  unstarted reloading selecting closed : Refresher

-- Where the timer's goroutine stands.
pub data Alarm : Type 0 where
  unset armed over : Alarm

-- Where the calls of `start` and `shutdown` stand: `stopping` has called `b.stop` and waits for
-- `done`.
pub data Caller : Type 0 where
  fresh serving stopping stopped : Caller

pub record Process : Type 0 where
  pub plugin : Blocklist
  pub cancelled : Bool
  pub refresher : Refresher
  pub alarm : Alarm
  pub caller : Caller

abbrev pub new_process : Process
new_process = record {
  plugin = new_blocklist;
  cancelled = false;
  refresher = unstarted;
  alarm = unset;
  caller = fresh;
}

pub data Step (lib : DnsLib) (std : StdLib) (c : Config) (p : Process) : Process → Type 0 where
  start :
      p.caller ≡ fresh
      → Step lib std c p (record p { refresher = reloading; alarm = armed; caller = serving })
  serve :
      (server : Bytes) (next : Next) (w : Writer) (r : Msg)
      → Step lib std c p (record p { plugin = (serve_dns lib std server next p.plugin w r).0 })
  -- A round sees the context done only if it is.
  reloaded :
      (env : ℕ → Attempt)
      → ((k : ℕ) → (env k).cancelled ≡ true → p.cancelled ≡ true)
      → p.refresher ≡ reloading
      → Step lib std c p (record p { plugin = reload std c env p.plugin; refresher = selecting })
  tick : p.refresher ≡ selecting → Step lib std c p (record p { refresher = reloading })
  quit :
      p.refresher ≡ selecting
      → p.cancelled ≡ true
      → Step lib std c p (record p { refresher = closed })
  expire :
      p.alarm ≡ armed
      → Step lib std c p (record p { plugin = fail_open_after_timeout p.plugin; alarm = over })
  disarm : p.alarm ≡ armed → p.cancelled ≡ true → Step lib std c p (record p { alarm = over })
  -- `shutdown` of a plugin that never started finds `stop` nil.
  skip : p.caller ≡ fresh → Step lib std c p (record p { caller = stopped })
  stop : p.caller ≡ serving → Step lib std c p (record p { cancelled = true; caller = stopping })
  join :
      p.caller ≡ stopping → p.refresher ≡ closed → Step lib std c p (record p { caller = stopped })

pub data Reach (lib : DnsLib) (std : StdLib) (c : Config) (p : Process) : Process → Type 0 where
  here : Reach lib std c p p
  step : {q r : Process} → Reach lib std c p q → Step lib std c q r → Reach lib std c p r

-- Before the start nothing runs, `shutdown` has cancelled the context exactly from its call on, and
-- it does not return while the refresh goroutine runs.
pub record IsOrdered (p : Process) : Type 0 where
  pub quiet_before : p.caller ≡ fresh → p.refresher ≡ unstarted
  pub quiet_after : p.caller ≡ stopped → (p.refresher ≡ unstarted) ⊎ (p.refresher ≡ closed)
  pub only_shutdown : p.cancelled ≡ true → (p.caller ≡ stopping) ⊎ (p.caller ≡ stopped)
  pub serves : p.caller ≡ serving → p.refresher ≢ unstarted
  pub started : p.caller ≡ stopping → p.refresher ≢ unstarted
  pub cancels : p.caller ≡ stopping → p.cancelled ≡ true
  pub closes : p.refresher ≡ closed → p.cancelled ≡ true

module _ (lib : DnsLib) (std : StdLib) (c : Config) where
  Step-IsOrdered : {p q : Process} → Step lib std c p q → IsOrdered p → IsOrdered q
  Step-IsOrdered (start e) o = ground (arith, o)
  Step-IsOrdered (serve server next w r) o = ground (arith, o)
  Step-IsOrdered (reloaded env live e) o = ground (arith, o)
  Step-IsOrdered (tick e) o = ground (arith, o)
  Step-IsOrdered (quit e d) o = ground (arith, o)
  Step-IsOrdered (expire e) o = ground (arith, o)
  Step-IsOrdered (disarm e d) o = ground (arith, o)
  Step-IsOrdered (skip e) o = ground (arith, o)
  Step-IsOrdered (stop e) o = ground (arith, o)
  Step-IsOrdered (join e d) o = ground (arith, o)

  Reach-IsOrdered : {p q : Process} → Reach lib std c p q → IsOrdered p → IsOrdered q
  Reach-IsOrdered here o = o
  Reach-IsOrdered (step r s) o = Step-IsOrdered s (Reach-IsOrdered r o)

  new_process-IsOrdered : IsOrdered new_process
  new_process-IsOrdered = ground arith

  -- The refresh goroutine runs no more, and the lists are those of `b`.
  pub record IsFrozen (b : Blocklist) (p : Process) : Type 0 where
    pub ended : p.caller ≡ stopped
    pub idle : (p.refresher ≡ unstarted) ⊎ (p.refresher ≡ closed)
    pub same_current : p.plugin.current ≡ b.current
    pub same_last_good : p.plugin.last_good ≡ b.last_good

  Step-IsFrozen : {b : Blocklist} {p q : Process} → Step lib std c p q → IsFrozen b p → IsFrozen b q
  unfolding fail_open_after_timeout
  Step-IsFrozen (start e) f = ground (arith, f)
  Step-IsFrozen {p = p} (serve server next w r) f =
      let (counts, current, ready, last_good) =
        serve_dns-counts lib std server [] next p.plugin w r in
      record {
        ended = f.ended;
        idle = f.idle;
        same_current = current ∙ f.same_current;
        same_last_good = last_good ∙ f.same_last_good;
      }
  Step-IsFrozen (reloaded env live e) f = ground (arith, f.idle)
  Step-IsFrozen (tick e) f = ground (arith, f.idle)
  Step-IsFrozen (quit e d) f = ground (arith, f)
  Step-IsFrozen (expire e) f = ground (arith, f)
  Step-IsFrozen (disarm e d) f = ground (arith, f)
  Step-IsFrozen (skip e) f = ground (arith, f)
  Step-IsFrozen (stop e) f = ground (arith, f)
  Step-IsFrozen (join e d) f = ground (arith, f)

  Reach-IsFrozen :
      {b : Blocklist} {p q : Process} → Reach lib std c p q → IsFrozen b p → IsFrozen b q
  Reach-IsFrozen here f = f
  Reach-IsFrozen (step r s) f = Step-IsFrozen s (Reach-IsFrozen r f)

  -- Once `shutdown` has returned, no refresh runs and no list changes any more, whatever queries come
  -- and whether or not the timer still fires.
  pub shutdown-IsFrozen :
      {p q : Process}
      → Reach lib std c new_process p
      → p.caller ≡ stopped
      → Reach lib std c p q
      → IsFrozen p.plugin q
  shutdown-IsFrozen reached ended later = Reach-IsFrozen later (record {
    ended = ended;
    idle = (Reach-IsOrdered reached new_process-IsOrdered).quiet_after ended;
    same_current = refl;
    same_last_good = refl;
  })

  -- A `shutdown` that waits is never stuck: from wherever the refresh goroutine stands, it can finish
  -- its reload, leave its `select`, and let `shutdown` return.
  pub shutdown_returns :
      {p : Process}
      → Reach lib std c new_process p
      → p.caller ≡ stopping
      → (q : Process) × Reach lib std c p q × (q.caller ≡ stopped)
  shutdown_returns {p} reached waits = from p.refresher refl
    where
      ordered : IsOrdered p
      ordered = Reach-IsOrdered reached new_process-IsOrdered

      from :
          (at : Refresher)
          → p.refresher ≡ at
          → (q : Process) × Reach lib std c p q × (q.caller ≡ stopped)
      from unstarted at = absurd (ordered.started waits at)
      from closed at = (record p { caller = stopped }, step here (join waits at), refl)
      from selecting at =
          let q : Process = record p { refresher = closed } in
          (
            record q { caller = stopped },
            step (step here (quit at (ordered.cancels waits))) (join waits refl),
            refl,
          )
      from reloading at =
          let done : ℕ → Attempt =
            λ k. record { cancelled = true; request_ok = false; answer = none } in
          let a : Process = record p {
            plugin = reload std c done p.plugin;
            refresher = selecting;
          } in
          let b : Process = record a { refresher = closed } in
          (
            record b { caller = stopped },
            step
                (step (step here (reloaded done (λ k e. ordered.cancels waits) at))
                  (quit refl (ordered.cancels waits)))
                (join waits refl),
            refl,
          )
