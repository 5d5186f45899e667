-- ===== src/Peercache/Contest/Legs.antt =====
-- `race` of plugin/peercache/peercache.go with its goroutines: a leg for each sibling, one for the
-- upstream, and a channel with a place for each.
use homedns.Prelude.{
  ℕ, suc, ◌≡◌, refl, sym, subst, ◌∙◌, inl, inr, List, [], ◌∷◌, Option, some, none, Bytes, length,
  arith, Bool-cases, Option-cases,
}
use homedns.Dns.{Msg, DnsLib, Served, Writer, useful}
use homedns.Fanout.{new_fanout, Inevitable}
use homedns.Fanout.Handler.{IsWaiting, IsReturned, run-IsReturned}
use homedns.Peercache.Store.{CacheLib, put}
use homedns.Peercache.Contest.{LegResult, contest_loop, contest, latest_upstream, send_on}
use homedns.Peercache.Contest.First.{Timed, arrivals}

-- `legs := len(peers) + 1`, and `make(chan legResult, legs)`.
unfoldable pub capacity : List Bytes → ℕ
capacity peers = suc (length peers)

module _ (lib : DnsLib) (lru : CacheLib) (w : Writer) (r : Msg) (peers : List Bytes)
    (c : lru.Cache) where
  -- What `race` returns after the results that it has read, if it returns.
  abbrev pub returned : List Timed → Option (lru.Cache × Served)
  returned received = contest lib lru w r peers (arrivals received) c

  contest_loop-ends :
      (ts : List Timed) (up : Option LegResult)
      → (out : lru.Cache × Served) × (contest_loop lib lru w r (length ts) (arrivals ts) up c
          ≡ some out)
  unfolding contest_loop
  contest_loop-ends [] up = (_, refl)
  contest_loop-ends ((now, res) ∷ ts) up = elim (Option-cases res.msg) [
    | inl silent ↦
        let (out, e) = contest_loop-ends ts (latest_upstream res up) in
        (out, ground (arith, silent, e))
    | inr (m, e) ↦ elim (Bool-cases (useful (some m))) [
      | inl wins ↦
          ((put lib lru now r (some m) c, send_on lib w r m res.err), ground (arith, e, wins))
      | inr loses ↦
          let (out, rest) = contest_loop-ends ts (latest_upstream res up) in
          (out, ground (arith, e, loses, rest))
    ]
  ]

  -- Every run of the legs of a query and of its handler comes to an end, in whatever order they take
  -- their turns and whenever the context ends: each leg sends its result, and the handler returns,
  -- unless it left before with the context.
  pub contest_run-IsReturned :
      (results : List LegResult)
      → length results ≡ suc (length peers)
      → Inevitable (IsWaiting returned) (capacity peers) (IsReturned returned) (new_fanout results)
  unfolding contest capacity
  contest_run-IsReturned results full =
      run-IsReturned returned (capacity peers) results (sym full) (λ received all.
        subst
          (λ n.
            (out : lru.Cache × Served) × (contest_loop lib lru w r n (arrivals received) none c
              ≡ some out))
          (all ∙ full) (contest_loop-ends received none))
