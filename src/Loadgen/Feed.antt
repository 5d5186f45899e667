-- ===== src/Loadgen/Feed.antt =====
-- `run` of scripts/loadgen/main.go: the channel between the loop over the names and the workers.
use homedns.Prelude.{
  ℕ, zero, suc, ◌+◌, ◌*◌, ◌≤◌, ◌<◌, ◌≡◌, ◌≢◌, refl, sym, ap, subst, Bool, true, false, List, [],
  ◌∷◌, ◌++◌, Bytes, arith, length, length-append, append-nil, append_assoc, take as first,
  drop as others, take-append-drop, length-drop, length-take,
}
use homedns.Loadgen.{capacity}
pub mod Order

-- The names that are not sent yet, those in the channel, those that workers have taken, whether the
-- channel is closed, the workers that have not returned, and those that gave up.
pub record Feed : Type 0 where
  pub pending : List Bytes
  pub channel : List Bytes
  pub taken : List Bytes
  pub is_closed : Bool
  pub live : ℕ
  pub left : ℕ

abbrev pub new_feed : ℕ → List Bytes → Feed
new_feed workers names = record {
  pending = names;
  channel = [];
  taken = [];
  is_closed = false;
  live = workers;
  left = 0;
}

-- A worker returns when it cannot dial, at first or again (`leave`), and when the channel is closed and empty
-- (`finish`).
pub data Step (cap : ℕ) (f : Feed) : Feed → Type 0 where
  send :
      (n : Bytes) (ns : List Bytes)
      → f.pending ≡ n ∷ ns
      → length f.channel < cap
      → Step cap f (record f { pending = ns; channel = f.channel ++ n ∷ [] })
  close : f.pending ≡ [] → f.is_closed ≡ false → Step cap f (record f { is_closed = true })
  take :
      (n : Bytes) (ns : List Bytes)
      → f.channel ≡ n ∷ ns
      → 0 < f.live
      → Step cap f (record f { channel = ns; taken = f.taken ++ n ∷ [] })
  leave : (k : ℕ) → f.live ≡ suc k → Step cap f (record f { live = k; left = suc f.left })
  finish :
      (k : ℕ)
      → f.live ≡ suc k
      → f.channel ≡ []
      → f.is_closed ≡ true
      → Step cap f (record f { live = k })

pub data Reach (cap : ℕ) (f : Feed) : Feed → Type 0 where
  here : Reach cap f f
  step : {g h : Feed} → Reach cap f g → Step cap g h → Reach cap f h

-- `run` returns: the channel is closed, and `wg.Wait` has no worker to wait for.
abbrev pub IsDone : Feed → Type 0
IsDone f = (f.is_closed ≡ true) × (f.live ≡ 0)

-- Nothing can happen any more, and `run` has not returned.
abbrev pub IsBlocked : ℕ → Feed → Type 0
IsBlocked cap f = ((g : Feed) → ¬ Step cap f g) × ¬ IsDone f

-- No worker is left, the channel is full, and there are names to send.
pub record IsStarved (cap : ℕ) (f : Feed) : Type 0 where
  pub no_worker : f.live ≡ 0
  pub is_full : cap ≤ length f.channel
  pub unsent : f.pending ≢ []
  pub open_end : f.is_closed ≡ false

IsStarved-no_step : (cap : ℕ) {f g : Feed} → IsStarved cap f → Step cap f g → ⊥
IsStarved-no_step cap s (send n ns e room) = absurd (omega (arith, s.is_full))
IsStarved-no_step cap s (close e c) = s.unsent e
IsStarved-no_step cap s (take n ns e work) = absurd (omega (arith, s.no_worker))
IsStarved-no_step cap s (leave k e) = absurd (omega (arith, s.no_worker))
IsStarved-no_step cap s (finish k e c d) = absurd (omega (arith, s.no_worker))

IsStarved-IsBlocked : (cap : ℕ) {f : Feed} → IsStarved cap f → IsBlocked cap f
IsStarved-IsBlocked cap s = (λ g t. IsStarved-no_step cap s t, λ d. cc (s.open_end, d.0))

-- All workers leave before they take a name.
leave_all :
    (cap live : ℕ) {f g : Feed}
    → g.live ≡ live
    → Reach cap f g
    → (k : ℕ) × Reach cap f (record g { live = 0; left = k })
leave_all cap zero {f} {g} e r = (g.left, subst (λ n. Reach cap f (record g { live = n })) e r)
leave_all cap (suc k) e r = leave_all cap k refl (step r (leave k e))

-- Names are sent while there is room.
fill :
    (cap : ℕ) (names more : List Bytes) {f g : Feed}
    → g.pending ≡ names ++ more
    → length g.channel + length names ≤ cap
    → Reach cap f g
    → Reach cap f (record g { pending = more; channel = g.channel ++ names })
fill cap [] more {f} {g} e room r =
    subst (λ (ns : List Bytes). Reach cap f (record g { pending = ns; channel = g.channel ++ [] }))
      e
      (subst (λ (ns : List Bytes). Reach cap f (record g { channel = ns }))
        (sym (append-nil g.channel)) r)
fill cap (n ∷ names) more {f} {g} e room r =
    let next : Feed = record g { pending = names ++ more; channel = g.channel ++ n ∷ [] } in
    let grown : length next.channel ≡ length g.channel + 1 = length-append g.channel (n ∷ []) in
    subst (λ (ns : List Bytes). Reach cap f (record g { pending = more; channel = ns }))
      (append_assoc g.channel (n ∷ []) names)
      (fill cap names more {g = next} refl (omega arith)
        (step r (send n (names ++ more) e (omega arith))))

-- With more names than the channel holds, four for each worker, `run` can block for good: it does if
-- no worker can dial, since each returns and nobody takes what is sent.
pub run_can_block :
    (workers : ℕ) (names : List Bytes)
    → capacity workers < length names
    → (f : Feed) × Reach (capacity workers) (new_feed workers names) f
      × IsBlocked (capacity workers) f
run_can_block workers names more =
    let cap = capacity workers in
    let split : names ≡ first cap names ++ others cap names = sym (take-append-drop cap names) in
    let sent = length-take cap names (omega arith) in
    let filled =
      fill cap (first cap names) (others cap names) {g = new_feed workers names} split
        (omega (arith, sent)) here in
    let (gone, reached) = leave_all cap workers refl filled in
    let f : Feed = record {
      pending = others cap names;
      channel = first cap names;
      taken = [];
      is_closed = false;
      live = 0;
      left = gone;
    } in
    (
      f,
      reached,
      IsStarved-IsBlocked cap (record {
        no_worker = refl;
        is_full = omega (arith, sent);
        unsent = λ e. absurd (omega (arith, ap length e, length-drop cap names));
        open_end = refl;
      }),
    )
