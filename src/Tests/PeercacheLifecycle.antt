-- ===== src/Tests/PeercacheLifecycle.antt =====
-- `start` and `shutdown` of plugin/peercache/setup.go on a short run.
use homedns.Prelude.{◌≡◌, refl, true, false, Bytes, codes}
use homedns.Peercache.Discovery.{Cluster}
use homedns.Peercache.Listener.{bind, bind_loop}
use homedns.Peercache.Lifecycle.{
  Process, new_process, start, connects, listen, connect, Reach, here, step, started, bound,
  unbound, connected, unwatched, stop, join, Listening, Discovering, serving, watching, stopping,
  stopped,
}
use homedns.Peercache.Lifecycle.Quiet.{IsQuiet, stopping_returns, shutdown-IsQuiet}
use homedns.Tests.Texts.{txt}

abbrev self : Bytes
self = codes "a"

-- Both goroutines run as `shutdown` is called.
abbrev waiting : Process
waiting = record new_process {
  cancelled = true;
  running_count = 2;
  listener = serving;
  discoverer = watching;
  caller = stopping;
}

abbrev cluster : Cluster
cluster = record { namespace_read = true; config_built = true; client_built = true; watched = true }

to_waiting : Reach txt 8053 self new_process waiting
unfolding start connects listen connect bind bind_loop
to_waiting =
    step
      (step (step (step here (started refl)) (bound (λ i. true) (λ i. false) (λ j e. cc) refl))
        (connected cluster refl))
      (stop refl)

stopping_returns_example : (q : Process) × Reach txt 8053 self waiting q × (q.caller ≡ stopped)
stopping_returns_example = stopping_returns txt 8053 self to_waiting refl

abbrev ended : Process
ended = record waiting {
  running_count = 0;
  listener = Listening.closed;
  discoverer = Discovering.closed;
  caller = stopped;
}

to_ended : Reach txt 8053 self new_process ended
to_ended = step (step (step to_waiting (unbound refl refl)) (unwatched refl refl)) (join refl refl)

shutdown-IsQuiet_example : IsQuiet txt 8053 self ended.peers ended
shutdown-IsQuiet_example = shutdown-IsQuiet txt 8053 self to_ended refl here
