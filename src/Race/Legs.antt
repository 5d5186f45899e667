-- ===== src/Race/Legs.antt =====
-- `dispatch` with its goroutines: one leg for each upstream, and a channel with a place for each.
use homedns.Prelude.{
  ℕ, ◌≡◌, refl, sym, subst, ◌∙◌, List, [], ◌∷◌, map, append-nil, Option, some, none, Bytes, length,
  arith,
}
use homedns.Dns.{Msg, DnsLib, Served, Writer}
use homedns.Fanout.{new_fanout, Inevitable}
use homedns.Fanout.Handler.{IsWaiting, IsReturned, run-IsReturned}
use homedns.Race.{LegResult, result, Resolved, dispatch}
use homedns.Race.Dispatch.{answer_of, dispatch-answer_of}

abbrev results_of : List (ℕ × LegResult) → List LegResult
results_of = map (λ (t : ℕ × LegResult). t.1)

length-results_of : (ts : List (ℕ × LegResult)) → length (results_of ts) ≡ length ts
length-results_of [] = refl
length-results_of (t ∷ ts) = omega (arith, length-results_of ts)

-- `make(chan legResult, len(rc.proxies))`.
unfoldable pub capacity : List Bytes → ℕ
capacity proxies = length proxies

module _ (lib : DnsLib) (w : Writer) (r : Msg) (proxies : List Bytes) where
  -- What `dispatch` returns after the results that it has read, if it returns.
  abbrev pub returned : List (ℕ × LegResult) → Option (Served × Resolved)
  returned received = dispatch lib w r proxies (map result (results_of received))

  returned-all :
      (received : List (ℕ × LegResult))
      → length received ≡ length proxies
      → returned received ≡ some (answer_of lib w r (results_of received) none none)
  returned-all received full =
      let results = results_of received in
      subst (λ events. dispatch lib w r proxies events ≡ some (answer_of lib w r results none none))
        (append-nil (map result results))
        (dispatch-answer_of lib w r proxies results [] (length-results_of received ∙ full))

  -- Every run of the legs of a query and of its handler comes to an end, in whatever order they take
  -- their turns and whenever the context ends: each leg sends its result, and the handler returns,
  -- unless it left before with the context.
  pub dispatch_run-IsReturned :
      (results : List LegResult)
      → length results ≡ length proxies
      → Inevitable
          (IsWaiting returned)
          (capacity proxies)
          (IsReturned returned)
          (new_fanout results)
  unfolding capacity
  dispatch_run-IsReturned results full =
      run-IsReturned returned (capacity proxies) results (sym full)
        (λ received all. (_, returned-all received (all ∙ full)))
