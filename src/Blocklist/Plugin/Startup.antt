-- ===== src/Blocklist/Plugin/Startup.antt =====
-- The refresh goroutine and the fail-open timer run at once. Here a step is one atomic access, in
-- the order of `reload`'s end and of `failOpenAfterTimeout`.
use homedns.Prelude.{◌≡◌, ◌≢◌, refl, ap, Bool, true, false, some}
use homedns.Blocklist.Matcher.{Matcher, size}
use homedns.Blocklist.Plugin.{Blocklist}
use homedns.Blocklist.Plugin.WellFormed.{is_some}

-- Where the refresh goroutine stands in the lines that publish a matcher.
pub data Refresh : Type 0 where
  idle : Refresh
  stored counted cleared : Refresh

-- Where the timer stands: `swapped old` after `b.ready.Swap(true)` gave `old`.
pub data Timer : Type 0 where
  waiting : Timer
  swapped : Bool → Timer
  finished : Timer

pub record Machine : Type 0 where
  pub shared : Blocklist
  pub refresh : Refresh
  pub timer : Timer

pub data Step (s : Machine) : Machine → Type 0 where
  store :
      (m : Matcher)
      → s.refresh ≡ idle
      → Step s (record s { shared = record (s.shared) { current = some m }; refresh = stored })
  count :
      s.refresh ≡ stored
      → Step s (record s {
        shared = record (s.shared) { domains_total = size s.shared.current };
        refresh = counted;
      })
  clear :
      s.refresh ≡ counted
      → Step s (record s { shared = record (s.shared) { fail_open = false }; refresh = cleared })
  announce :
      s.refresh ≡ cleared
      → Step s (record s { shared = record (s.shared) { ready = true }; refresh = idle })
  fire :
      s.timer ≡ waiting
      → Step s
          (record s { shared = record (s.shared) { ready = true }; timer = swapped s.shared.ready })
  raise :
      s.timer ≡ swapped false
      → Step s (record s { shared = record (s.shared) { fail_open = true }; timer = finished })
  pass : s.timer ≡ swapped true → Step s (record s { timer = finished })

pub data Reach (s : Machine) : Machine → Type 0 where
  here : Reach s s
  step : {d e : Machine} → Reach s d → Step d e → Reach s e

-- Neither goroutine is in the middle of its lines.
abbrev pub IsQuiet : Machine → Type 0
IsQuiet s = (s.refresh ≡ idle) × (s.timer ≢ swapped false) × (s.timer ≢ swapped true)

-- While a list is loaded, the plugin is ready as soon as the refresh goroutine is idle, and once
-- the timer has fired it is ready in any case.
pub record IsConsistent (s : Machine) : Type 0 where
  pub loaded_ready : is_some s.shared.current ≡ true → s.refresh ≡ idle → s.shared.ready ≡ true
  pub fired_ready : s.timer ≢ waiting → s.shared.ready ≡ true
  pub open_fired : s.shared.fail_open ≡ true → s.timer ≡ finished
  pub busy_loaded : s.refresh ≢ idle → is_some s.shared.current ≡ true

-- From every state before the timer fires and before a list is loaded, a list that loads while the
-- timer runs can leave the gauge `fail_open` set beside a loaded list, with both goroutines at rest.
pub stale_gauge :
    (s : Machine) (m : Matcher)
    → s.refresh ≡ idle
    → s.timer ≡ waiting
    → s.shared.ready ≡ false
    → (d : Machine) × Reach s d
      × IsQuiet d
      × (d.shared.current ≡ some m)
      × (d.shared.fail_open ≡ true)
stale_gauge s m idle_now waits unready =
    let a : Machine = record s {
      shared = record (s.shared) { ready = true };
      timer = swapped s.shared.ready;
    } in
    let b : Machine = record a {
      shared = record (a.shared) { current = some m };
      refresh = stored;
    } in
    let c : Machine = record b {
      shared = record (b.shared) { domains_total = size b.shared.current };
      refresh = counted;
    } in
    let d : Machine = record c {
      shared = record (c.shared) { fail_open = false };
      refresh = cleared;
    } in
    let e : Machine = record d { shared = record (d.shared) { ready = true }; refresh = idle } in
    let f : Machine = record e {
      shared = record (e.shared) { fail_open = true };
      timer = finished;
    } in
    let trace : Reach s f =
      step
        (step
          (step (step (step (step here (fire waits)) (store m idle_now)) (count refl)) (clear refl))
          (announce refl))
        (raise (ap swapped unready)) in
    (f, trace, (refl, λ h. cc, λ h. cc), refl, refl)
