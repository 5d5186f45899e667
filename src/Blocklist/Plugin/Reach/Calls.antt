-- ===== src/Blocklist/Plugin/Reach/Calls.antt =====
-- The steps one after the other make up the calls `reload` and `failOpenAfterTimeout`.
use homedns.Prelude.{
  ℕ, suc, ◌≡◌, refl, sym, ap, subst, true, not, List, [], ◌∷◌, Option, none, Bytes, if_cases, arith,
}
use homedns.Prelude.Text.{StdLib}
use homedns.Dns.{DnsLib}
use homedns.Blocklist.Source.{Attempt}
use homedns.Blocklist.Plugin.{
  Config, Blocklist, reload_round, reload_loop, publish, finish_reload, reload,
  fail_open_after_timeout,
}
use homedns.Blocklist.Plugin.Startup.{Timer, waiting, swapped, finished}
use homedns.Blocklist.Plugin.Reach.{
  resting, merging, Running, begin, round, cancel, keep, store, count, clear, announce, fire, raise,
  pass, Reach, here, step,
}

module _ (lib : DnsLib) (std : StdLib) (c : Config) where
  published :
      {s : Running} (b : Blocklist) (t : Timer) (merged : List Bytes)
      → Reach lib std c s (record { shared = b; refresh = merging [] merged; timer = t })
      → Reach lib std c s
          (record { shared = publish c.allow merged b; refresh = resting; timer = t })
  unfolding publish
  published b t [] r = step r (keep refl)
  published b t (n ∷ merged) r =
      step (step (step (step r (store n merged refl)) (count refl)) (clear refl)) (announce refl)

  rounds :
      {s : Running} (urls : List Bytes) (env : ℕ → Attempt) (i : ℕ) (b : Blocklist) (t : Timer)
      (merged : List Bytes)
      → Reach lib std c s (record { shared = b; refresh = merging urls merged; timer = t })
      → Reach lib std c s (record {
        shared = finish_reload c.allow (reload_loop std urls env i b merged);
        refresh = resting;
        timer = t;
      })
  unfolding reload_loop finish_reload
  rounds [] env i b t merged r = published b t merged r
  rounds {s} (url ∷ urls) env i b t merged r =
      let next = reload_round std url (env i) b merged in
      if_cases
        (λ (out : Blocklist × Option (List Bytes)).
          Reach lib std c s
            (record { shared = finish_reload c.allow out; refresh = resting; timer = t }))
        (env i).cancelled (b, none) (reload_loop std urls env (suc i) next.0 next.1)
        (λ ends. step r (cancel url urls merged refl))
        (λ live.
          rounds urls env (suc i) next.0 t next.1
            (step r (round url urls merged (env i) refl live)))

  timer_run :
      (b : Blocklist)
      → Reach lib std c
          (record { shared = b; refresh = resting; timer = waiting })
          (record { shared = fail_open_after_timeout b; refresh = resting; timer = finished })
  unfolding fail_open_after_timeout
  timer_run b =
      let fired : Reach lib std c (record { shared = b; refresh = resting; timer = waiting })
          (record {
            shared = record b { ready = true };
            refresh = resting;
            timer = swapped b.ready;
          }) =
        step here (fire refl) in
      let from : Running = record { shared = b; refresh = resting; timer = waiting } in
      if_cases
        (λ (d : Blocklist).
          Reach lib std c from (record { shared = d; refresh = resting; timer = finished }))
        (not b.ready) (record b { ready = true; fail_open = true }) b
        (λ unready. step fired (raise (ap swapped (ground (arith, unready)))))
        (λ was.
          let up : b.ready ≡ true = ground (arith, was) in
          subst
            (λ x.
              Reach lib std c from
                (record { shared = record b { ready = x }; refresh = resting; timer = finished }))
            (sym up) (step fired (pass (ap swapped up))))

  -- A reload that no other call interrupts does what `reload` computes, and the timer that none
  -- interrupts does what `fail_open_after_timeout` computes.
  pub calls-Reach :
      (env : ℕ → Attempt) (b : Blocklist) (t : Timer)
      → Reach lib std c
          (record { shared = b; refresh = resting; timer = t })
          (record { shared = reload std c env b; refresh = resting; timer = t })
        × Reach lib std c
            (record { shared = b; refresh = resting; timer = waiting })
            (record { shared = fail_open_after_timeout b; refresh = resting; timer = finished })
  unfolding reload
  calls-Reach env b t = (rounds c.urls env 0 b t [] (step here (begin refl)), timer_run b)
