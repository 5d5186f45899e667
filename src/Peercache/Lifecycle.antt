-- ===== src/Peercache/Lifecycle.antt =====
-- `start` and `shutdown` of plugin/peercache/setup.go: the goroutines of `listen` and `discover` from
-- the start of the plugin to its end. A step is a whole call, or the choice of a `select`.
use homedns.Prelude.{
  ℕ, zero, suc, ◌+◌, ◌-◌, ◌≤◌, ◌≡◌, ◌≢◌, refl, sym, ap, subst, ◌∙◌, ◌⊎◌, inl, inr, Bool, true,
  false, ◌&&◌, List, Option, none, some, Bytes, is_empty, arith, if◌then◌else◌,
}
use homedns.Corefile.{TextLib}
use homedns.Peercache.Discovery.{Pod, Peers, Cluster, republish}
use homedns.Peercache.Listener.{Bound, socket, bind}
pub mod Quiet

-- Where the goroutine of `listen` stands.
pub data Listening : Type 0 where
  unlaunched binding serving closed : Listening

-- Where the goroutine of `discover` stands: `watching` from factory.Start on.
pub data Discovering : Type 0 where
  unlaunched connecting watching closed : Discovering

-- Where the calls of `start` and `shutdown` stand: `stopping` has called `p.stop` and waits.
pub data Caller : Type 0 where
  fresh running stopping stopped : Caller

-- `running_count` is the counter of the WaitGroup.
pub record Process : Type 0 where
  pub peers : Peers
  pub cancelled : Bool
  pub running_count : ℕ
  pub listener : Listening
  pub discoverer : Discovering
  pub caller : Caller

abbrev pub new_process : Process
new_process = record {
  peers = record { listed = none; total = 0 };
  cancelled = false;
  running_count = 0;
  listener = Listening.unlaunched;
  discoverer = Discovering.unlaunched;
  caller = fresh;
}

-- `start` with what POD_IP holds: without an address it launches nothing.
unfoldable pub start : Bytes → Process → Process
start self p = if is_empty self then record p { caller = running } else record p {
  running_count = p.running_count + 2;
  listener = binding;
  discoverer = connecting;
  caller = running;
}

-- Whether each of the steps of `discover` that can fail succeeds.
unfoldable pub connects : Cluster → Bool
connects k = k.namespace_read && k.config_built && k.client_built && k.watched

-- `listen` after `bind`: it serves on the socket, if there is one.
unfoldable pub listen : Bound → Process → Process
listen (socket i) p = record p { listener = serving }
listen b p = record p { listener = Listening.closed; running_count = p.running_count - 1 }

-- `discover` up to the start of the informer.
unfoldable pub connect : Bool → Process → Process
connect true p = record p { discoverer = watching }
connect false p = record p { discoverer = Discovering.closed; running_count = p.running_count - 1 }

abbrev pub end_listener : Process → Process
end_listener p = record p { listener = Listening.closed; running_count = p.running_count - 1 }

abbrev pub end_discoverer : Process → Process
end_discoverer p = record p { discoverer = Discovering.closed; running_count = p.running_count - 1 }

pub data Step (txt : TextLib) (port : ℕ) (self : Bytes) (p : Process) : Process → Type 0 where
  started : p.caller ≡ fresh → Step txt port self p (start self p)
  -- A delay sees the context done only if it is.
  bound :
      (free ends : ℕ → Bool)
      → ((j : ℕ) → ends j ≡ true → p.cancelled ≡ true)
      → p.listener ≡ binding
      → Step txt port self p (listen (bind free ends) p)
  -- The server ends by an error of its own, or as the end of the context closes its socket.
  failed : p.listener ≡ serving → Step txt port self p (end_listener p)
  unbound : p.listener ≡ serving → p.cancelled ≡ true → Step txt port self p (end_listener p)
  connected :
      (k : Cluster) → p.discoverer ≡ connecting → Step txt port self p (connect (connects k) p)
  event :
      (pods : Option (List Pod))
      → p.discoverer ≡ watching
      → Step txt port self p (record p { peers = republish txt port self pods p.peers })
  unwatched : p.discoverer ≡ watching → p.cancelled ≡ true → Step txt port self p (end_discoverer p)
  -- `shutdown` of a plugin that never started finds `stop` nil.
  skip : p.caller ≡ fresh → Step txt port self p (record p { caller = stopped })
  stop :
      p.caller ≡ running → Step txt port self p (record p { cancelled = true; caller = stopping })
  join :
      p.caller ≡ stopping
      → p.running_count ≡ 0
      → Step txt port self p (record p { caller = stopped })

pub data Reach (txt : TextLib) (port : ℕ) (self : Bytes) (p : Process) : Process → Type 0 where
  here : Reach txt port self p p
  step :
      {q r : Process} → Reach txt port self p q → Step txt port self q r → Reach txt port self p r
