-- ===== src/Loadgen/Feed/Order.antt =====
-- What the workers take.
use homedns.Prelude.{
  ℕ, ◌+◌, ◌≤◌, ◌<◌, ◌≡◌, refl, sym, ap, ◌∙◌, true, List, [], ◌∷◌, ◌++◌, Bytes, arith, append-nil,
  append_assoc,
}
use homedns.Loadgen.{capacity}
use homedns.Loadgen.Feed.{
  Feed, new_feed, Step, send, close, take, leave, finish, Reach, here, step, IsDone,
}

-- Every name is taken, in the channel, or not sent yet, and the names keep their order. The channel
-- is closed behind the last name, and a worker that returns without giving up has found it empty.
record IsConserving (workers : ℕ) (names : List Bytes) (f : Feed) : Type 0 where
  kept : f.taken ++ (f.channel ++ f.pending) ≡ names
  closed : f.is_closed ≡ true → f.pending ≡ []
  few : f.live + f.left ≤ workers
  ended : f.live + f.left < workers → (f.is_closed ≡ true) × (f.channel ≡ [])

module _ (cap workers : ℕ) (names : List Bytes) where
  Step-IsConserving :
      {f g : Feed} → Step cap f g → IsConserving workers names f → IsConserving workers names g
  Step-IsConserving {f} (send n ns e room) c = record {
    kept =
        ap (λ (t : List Bytes). f.taken ++ t) (append_assoc f.channel (n ∷ []) ns)
        ∙ ap (λ (t : List Bytes). f.taken ++ (f.channel ++ t)) (sym e)
        ∙ c.kept;
    closed = λ d. absurd (cc (c.closed d, e));
    few = c.few;
    ended = λ l. absurd (cc (c.closed (c.ended l).0, e));
  }
  Step-IsConserving (close e d) c = record {
    kept = c.kept;
    closed = λ k. e;
    few = c.few;
    ended = λ l. (refl, (c.ended l).1);
  }
  Step-IsConserving {f} (take n ns e work) c = record {
    kept =
        append_assoc f.taken (n ∷ []) (ns ++ f.pending)
        ∙ ap (λ (t : List Bytes). f.taken ++ (t ++ f.pending)) (sym e)
        ∙ c.kept;
    closed = c.closed;
    few = c.few;
    ended = λ l. absurd (cc ((c.ended l).1, e));
  }
  Step-IsConserving (leave k e) c = record {
    kept = c.kept;
    closed = c.closed;
    few = omega (arith, c.few);
    ended = λ l. c.ended (omega arith);
  }
  Step-IsConserving (finish k e empty d) c = record {
    kept = c.kept;
    closed = c.closed;
    few = omega (arith, c.few);
    ended = λ l. (d, empty);
  }

  Reach-IsConserving :
      {f g : Feed} → Reach cap f g → IsConserving workers names f → IsConserving workers names g
  Reach-IsConserving here c = c
  Reach-IsConserving (step r s) c = Step-IsConserving s (Reach-IsConserving r c)

  new_feed-IsConserving : IsConserving workers names (new_feed workers names)
  new_feed-IsConserving = record {
    kept = refl;
    closed = λ e. cc;
    few = omega arith;
    ended = λ l. absurd (omega (arith, l));
  }

-- If `run` returns and not every worker gave up, its workers have taken all names, each once and in
-- their order.
pub run-takes_all :
    (workers : ℕ) (names : List Bytes) {f : Feed}
    → Reach (capacity workers) (new_feed workers names) f
    → IsDone f
    → f.left < workers
    → f.taken ≡ names
run-takes_all workers names {f} reached done some_stay =
    let c =
      Reach-IsConserving (capacity workers) workers names reached
        (new_feed-IsConserving (capacity workers) workers names) in
    let empty = (c.ended (omega (arith, done.1))).1 in
    let none_waits : [] ≡ f.channel ++ f.pending = cc (empty, c.closed done.0) in
    sym (append-nil f.taken) ∙ ap (λ (t : List Bytes). f.taken ++ t) none_waits ∙ c.kept
