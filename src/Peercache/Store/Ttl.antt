-- ===== src/Peercache/Store/Ttl.antt =====
-- `minTTL` and `setTTL`: the lifetime of a message is the least of its records', but for OPT.
use homedns.Prelude.{
  ℕ, ◌≤◌, ◌≡◌, refl, ◌⊎◌, inl, inr, true, false, List, [], ◌∷◌, ◌++◌, Option, none, some, Memᴰ, All,
  All-append, arith, append-nil, append_assoc, ltb, ◌==◌, Bool-cases, if_cases, ltb→lt, ◌<◌,
  mem-append_left, mem-append_right, All-imp,
}
use homedns.Dns.{Msg, Rr, type_opt}
use homedns.Peercache.Store.{min_ttl_round, min_ttl_loop, min_ttl}

-- The records of the three sections.
abbrev pub records : Msg → List Rr
records m = m.answer ++ m.ns ++ m.extra

-- `least` is the least lifetime among the records, and some record's own.
abbrev pub IsLeastTtl : List Rr → Option ℕ → Type 0
IsLeastTtl rrs none = All (λ (rr : Rr). (rr.rrtype == type_opt) ≡ true) rrs
IsLeastTtl rrs (some least) =
    All (λ (rr : Rr). ((rr.rrtype == type_opt) ≡ true) ⊎ (least ≤ rr.ttl)) rrs
    × ((rr : Rr) × Memᴰ rr rrs × ((rr.rrtype == type_opt) ≡ false) × (rr.ttl ≡ least))

IsLeastTtl-some :
    (done : List Rr) (rr : Rr) (least : ℕ)
    → All (λ (rr : Rr). ((rr.rrtype == type_opt) ≡ true) ⊎ (least ≤ rr.ttl)) done
    → ((rr.rrtype == type_opt) ≡ true) ⊎ (least ≤ rr.ttl)
    → ((one : Rr) × Memᴰ one (done ++ rr ∷ [])
        × ((one.rrtype == type_opt) ≡ false)
        × (one.ttl ≡ least))
    → IsLeastTtl (done ++ rr ∷ []) (some least)
IsLeastTtl-some done rr least h k one = (
  All-append (λ (t : Rr). ((t.rrtype == type_opt) ≡ true) ⊎ (least ≤ t.ttl)) done (rr ∷ []) h
      (k, tt),
  one,
)

-- A round keeps the description, for the records read so far and the next one.
min_ttl_round-IsLeastTtl :
    (done : List Rr) (rr : Rr) (least : Option ℕ)
    → IsLeastTtl done least
    → IsLeastTtl (done ++ rr ∷ []) (min_ttl_round rr least)
unfolding min_ttl_round
min_ttl_round-IsLeastTtl done rr none h = elim (Bool-cases (rr.rrtype == type_opt)) [
  | inl opt ↦
      if_cases (IsLeastTtl (done ++ rr ∷ [])) (rr.rrtype == type_opt) none (some rr.ttl)
        (λ _. All-append (λ (t : Rr). (t.rrtype == type_opt) ≡ true) done (rr ∷ []) h (opt, tt))
        (λ e. cc)
  | inr plain ↦
      if_cases (IsLeastTtl (done ++ rr ∷ [])) (rr.rrtype == type_opt) none (some rr.ttl) (λ e. cc)
        (λ _.
          IsLeastTtl-some done rr rr.ttl (All-imp _ _ done (λ t e. inl e) h) (inr (omega arith))
            (rr, mem-append_right done (Memᴰ.head refl), plain, refl))
]
min_ttl_round-IsLeastTtl done rr (some min) (h, (one, m, plain, e)) =
    if_cases (IsLeastTtl (done ++ rr ∷ [])) (rr.rrtype == type_opt) _ _
      (λ opt. IsLeastTtl-some done rr min h (inl opt) (one, mem-append_left (rr ∷ []) m, plain, e))
      (λ other.
        if_cases (IsLeastTtl (done ++ rr ∷ [])) (ltb rr.ttl min) _ _
          (λ less.
            IsLeastTtl-some done rr rr.ttl (All-imp _ _ done (λ t k. lower t (ltb→lt _ _ less) k) h)
              (inr (omega arith)) (rr, mem-append_right done (Memᴰ.head refl), other, refl))
          (λ more.
            IsLeastTtl-some done rr min h (inr (ground arith))
              (one, mem-append_left (rr ∷ []) m, plain, e)))
  where
    lower :
        (t : Rr)
        → rr.ttl < min
        → ((t.rrtype == type_opt) ≡ true) ⊎ (min ≤ t.ttl)
        → ((t.rrtype == type_opt) ≡ true) ⊎ (rr.ttl ≤ t.ttl)
    lower t lt (inl opt) = inl opt
    lower t lt (inr le) = inr (omega arith)

min_ttl_loop-IsLeastTtl :
    (done rrs : List Rr) (least : Option ℕ)
    → IsLeastTtl done least
    → IsLeastTtl (done ++ rrs) (min_ttl_loop least rrs)
unfolding min_ttl_loop
min_ttl_loop-IsLeastTtl done [] least h = rw append-nil h
min_ttl_loop-IsLeastTtl done (rr ∷ rrs) least h = rw (← append_assoc done (rr ∷ []) rrs) (
    min_ttl_loop-IsLeastTtl (done ++ rr ∷ []) rrs (min_ttl_round rr least)
      (min_ttl_round-IsLeastTtl done rr least h))

-- `minTTL` gives the least lifetime of the records other than OPT, or nothing if there are none.
pub min_ttl-IsLeastTtl : (m : Msg) → IsLeastTtl (records m) (min_ttl m)
unfolding min_ttl
min_ttl-IsLeastTtl m =
    min_ttl_loop-IsLeastTtl (m.answer ++ m.ns) m.extra
      (min_ttl_loop (min_ttl_loop none m.answer) m.ns)
      (min_ttl_loop-IsLeastTtl m.answer m.ns (min_ttl_loop none m.answer)
        (min_ttl_loop-IsLeastTtl [] m.answer none tt))
