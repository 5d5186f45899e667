-- ===== src/Tests/Lifecycle.antt =====
-- `start` and `shutdown` of plugin/blocklist/blocklist.go on a short run.
use homedns.Prelude.{ℕ, zero, suc, ◌≡◌, refl, true}
use homedns.Blocklist.Plugin.{new_blocklist, reload, fail_open_after_timeout}
use homedns.Blocklist.Plugin.Lifecycle.{
  Process, new_process, Reach, here, step, start, reloaded, expire, quit, stop, join, stopping,
  stopped, closed, selecting, armed, over, IsFrozen, shutdown-IsFrozen, shutdown_returns,
}
use homedns.Tests.World.{std, lib}
use homedns.Tests.Blocklist.{config, env}

-- The first reload sees no end of the context, and `shutdown` is called after it.
abbrev waiting : Process
waiting = record new_process {
  plugin = reload std config env new_blocklist;
  cancelled = true;
  refresher = selecting;
  alarm = armed;
  caller = stopping;
}

lives : (k : ℕ) → (env k).cancelled ≡ true → ⊥
lives zero e = cc
lives (suc k) e = cc

to_waiting : Reach lib std config new_process waiting
to_waiting =
    step (step (step here (start refl)) (reloaded env (λ k e. absurd (lives k e)) refl)) (stop refl)

shutdown_returns_example : (q : Process) × Reach lib std config waiting q × (q.caller ≡ stopped)
shutdown_returns_example = shutdown_returns lib std config to_waiting refl

-- After it, the timer fires.
abbrev ended : Process
ended = record waiting { refresher = closed; caller = stopped }

to_ended : Reach lib std config new_process ended
to_ended = step (step to_waiting (quit refl refl)) (join refl refl)

shutdown-IsFrozen_example :
    IsFrozen lib std config ended.plugin
      (record ended { plugin = fail_open_after_timeout ended.plugin; alarm = over })
shutdown-IsFrozen_example = shutdown-IsFrozen lib std config to_ended refl (step here (expire refl))
