-- ===== src/Loadgen/System/Deadlock.antt =====
-- If no worker can dial, `run` blocks for good as soon as there are more names than the channel holds.
use homedns.Prelude.{
  ℕ, ◌+◌, ◌-◌, ◌≤◌, ◌<◌, ◌≡◌, ◌≢◌, refl, sym, subst, ◌∙◌, ◌⊎◌, inl, inr, false, List, [], ◌∷◌, ◌++◌,
  Bytes, arith, length, All, All-append, length-append, append-nil, append_assoc, take as first,
  drop as others, take-append-drop, length-take,
}
use homedns.Loadgen.{capacity}
use homedns.Loadgen.System.{
  Place, dialling, looping, returned, Slot, System, new_system, Step, send, close, dial, give_up,
  ask, finish, Reach, here, step, IsOver,
}
use homedns.Loadgen.System.Undialled.{
  IsUndialled, IsIdle, Reach-IsCounted, new_system-IsCounted, IsUndialled-unsent,
  IsUndialled-waiting, IsUndialled-not-IsOver, All-middle,
}

abbrev IsGone : Slot → Type 0
IsGone w = (w.place ≡ returned) × IsUndialled w

Place-cases : (p : Place) → (p ≡ dialling) ⊎ ((p ≡ looping) ⊎ (p ≡ returned))
Place-cases dialling = inl refl
Place-cases looping = inr (inl refl)
Place-cases returned = inr (inr refl)

Reach-trans : {cap : ℕ} {s t u : System} → Reach cap s t → Reach cap t u → Reach cap s u
Reach-trans r here = r
Reach-trans r (step q st) = step (Reach-trans r q) st

module _ (cap : ℕ) where
  -- All workers give up.
  give_up_all :
      {s t : System} (xs ys : List Slot)
      → t.slots ≡ xs ++ ys
      → All IsGone xs
      → All IsIdle ys
      → All IsUndialled ys
      → Reach cap s t
      → (zs : List Slot) × All IsGone zs × Reach cap s (record t { slots = zs })
  give_up_all {s} {t} xs [] e gone idle un r =
      (xs, gone, subst (λ ws. Reach cap s (record t { slots = ws })) (e ∙ append-nil xs) r)
  give_up_all {s} {t} xs (w ∷ ys) e gone idle un r = elim (Place-cases w.place) [
    | inl p ↦
        let v : Slot = record w { place = returned; dialled = false } in
        give_up_all (xs ++ v ∷ []) ys (sym (append_assoc xs (v ∷ []) ys))
          (All-append IsGone xs (v ∷ []) gone ((refl, refl), tt)) idle.1 un.1
          (step r (give_up xs w ys e p))
    | inr (inl p) ↦ absurd (idle.0.no_loop un.0 p)
    | inr (inr p) ↦
        give_up_all (xs ++ w ∷ []) ys (e ∙ sym (append_assoc xs (w ∷ []) ys))
          (All-append IsGone xs (w ∷ []) gone ((p, un.0), tt)) idle.1 un.1 r
  ]

  -- Names are sent while there is room.
  fill :
      (names more : List Bytes) {s t : System}
      → t.pending ≡ names ++ more
      → length t.channel + length names ≤ cap
      → Reach cap s t
      → Reach cap s (record t { pending = more; channel = t.channel ++ names })
  fill [] more {s} {t} e room r =
      subst
        (λ (ns : List Bytes). Reach cap s (record t { pending = ns; channel = t.channel ++ [] })) e
        (subst (λ (ns : List Bytes). Reach cap s (record t { channel = ns }))
          (sym (append-nil t.channel)) r)
  fill (n ∷ names) more {s} {t} e room r =
      let grown = length-append t.channel (n ∷ []) in
      subst (λ (ns : List Bytes). Reach cap s (record t { pending = more; channel = ns }))
        (append_assoc t.channel (n ∷ []) names)
        (fill names more {t = record t { pending = names ++ more; channel = t.channel ++ n ∷ [] }}
          refl (omega (arith, grown)) (step r (send n (names ++ more) e (omega arith))))

  -- Nobody takes a name, the channel is full, and there are names to send.
  full-no_step :
      {t u : System}
      → All IsGone t.slots
      → cap ≤ length t.channel
      → t.pending ≢ []
      → Step cap t u
      → ⊥
  full-no_step gone full unsent (send n ns e room) = absurd (omega arith)
  full-no_step gone full unsent (close e c) = unsent e
  full-no_step gone full unsent (dial xs w ys e p) =
      let (q, _) = All-middle IsGone xs w ys (subst (All IsGone) e gone) in cc (p, q)
  full-no_step gone full unsent (give_up xs w ys e p) =
      let (q, _) = All-middle IsGone xs w ys (subst (All IsGone) e gone) in cc (p, q)
  full-no_step gone full unsent (ask xs w ys n ns o e p c) =
      let (q, _) = All-middle IsGone xs w ys (subst (All IsGone) e gone) in cc (p, q)
  full-no_step gone full unsent (finish xs w ys e p c d) =
      let (q, _) = All-middle IsGone xs w ys (subst (All IsGone) e gone) in cc (p, q)

  All-IsUndialled : (ws : List Slot) → All IsGone ws → All IsUndialled ws
  All-IsUndialled [] h = tt
  All-IsUndialled (w ∷ ws) h = (h.0.1, All-IsUndialled ws h.1)

-- With more names than the channel holds, four for each worker, a run in which no worker has been able
-- to dial so far has not returned. If none can dial from there on either, it can come to a state in
-- which no worker has dialled, nothing can happen any more, and `run` has not returned.
pub IsUndialled-blocks :
    (workers : ℕ) (names : List Bytes) {s : System}
    → capacity workers < length names
    → Reach (capacity workers) (new_system workers names) s
    → All IsUndialled s.slots
    → ¬ IsOver s
      × ((t : System) × Reach (capacity workers) s t
          × All IsUndialled t.slots
          × ((u : System) → ¬ Step (capacity workers) t u)
          × ¬ IsOver t)
IsUndialled-blocks workers names {s} more reached un =
    let cap = capacity workers in
    let counted = Reach-IsCounted cap names reached (new_system-IsCounted cap names workers) in
    let (zs, gone, left) = give_up_all cap [] s.slots refl tt counted.idle un here in
    let room = cap - length s.channel in
    let mid : System = record s { slots = zs } in
    let enough = IsUndialled-waiting cap names more counted un in
    let (fits, over) = enough in
    let taken : length (first room s.pending) ≡ room = length-take room s.pending (omega arith) in
    let filled =
      fill cap (first room s.pending) (others room s.pending) {t = mid}
        (sym (take-append-drop room s.pending)) (omega (arith, taken)) left in
    let t : System = record mid {
      pending = others room s.pending;
      channel = s.channel ++ first room s.pending;
    } in
    let undialled = All-IsUndialled cap zs gone in
    let counted_t = Reach-IsCounted cap names filled counted in
    (
      IsUndialled-not-IsOver cap names more counted un,
      (
        t,
        filled,
        undialled,
        (λ u st.
            full-no_step cap gone
              (omega (arith, length-append s.channel (first room s.pending), taken))
              (IsUndialled-unsent cap names more counted_t undialled) st),
        IsUndialled-not-IsOver cap names more counted_t undialled,
      ),
    )
