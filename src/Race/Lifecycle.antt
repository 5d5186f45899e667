-- ===== src/Race/Lifecycle.antt =====
-- `start` and `stop` of plugin/race/setup.go: the calls on the proxies' connection managers.
use homedns.Prelude.{ℕ, ◌*◌, ◌≡◌, refl, ap, List, [], ◌∷◌, map}
use homedns.Race.Setup.{Proxy, Race}

-- `hcInterval`, half a second in nanoseconds.
abbrev pub hc_interval : ℕ
hc_interval = 500 * 1000000

-- The calls of Proxy.Start, with its interval, and of Proxy.Stop.
pub data ProxyCall : Type 0 where
  started : Proxy → ℕ → ProxyCall
  stopped : Proxy → ProxyCall

unfoldable pub start_loop : List Proxy → List ProxyCall
start_loop [] = []
start_loop (p ∷ ps) = started p hc_interval ∷ start_loop ps

unfoldable pub start : Race → List ProxyCall
start rc = start_loop rc.proxies

unfoldable pub stop_loop : List Proxy → List ProxyCall
stop_loop [] = []
stop_loop (p ∷ ps) = stopped p ∷ stop_loop ps

unfoldable pub stop : Race → List ProxyCall
stop rc = stop_loop rc.proxies

abbrev pub callee : ProxyCall → Proxy
callee (started p interval) = p
callee (stopped p) = p

-- `start` and `stop` reach the same proxies, each as often as it was configured.
pub start-stop :
    (rc : Race) → (map callee (start rc) ≡ rc.proxies) × (map callee (stop rc) ≡ rc.proxies)
unfolding start stop start_loop stop_loop
start-stop rc = (starts rc.proxies, stops rc.proxies)
  where
    starts : (ps : List Proxy) → map callee (start_loop ps) ≡ ps
    starts [] = refl
    starts (p ∷ ps) = ap (λ (qs : List Proxy). p ∷ qs) (starts ps)

    stops : (ps : List Proxy) → map callee (stop_loop ps) ≡ ps
    stops [] = refl
    stops (p ∷ ps) = ap (λ (qs : List Proxy). p ∷ qs) (stops ps)
