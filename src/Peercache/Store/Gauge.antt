-- ===== src/Peercache/Store/Gauge.antt =====
-- The store with the gauge `storeEntries`.
use homedns.Prelude.{
  ℕ, ◌*◌, ◌≡◌, refl, sym, ap, ◌∙◌, not, ◌||◌, List, [], ◌∷◌, Option, none, some, ltb, if◌then◌else◌,
  if_cases, Bool-cases, inl, inr,
}
use homedns.Dns.{Msg, DnsLib}
use homedns.Peercache.Store.{
  Entry, CacheLib, second, min_serve_ttl, min_ttl, storable, key, put_for, put, is_stale,
  serve_entry, get_for, get,
}
use homedns.Peercache.Store.Lifetime.{Call, putting, getting, run}

-- `size` is Cache.Len.
module _ (lib : DnsLib) (lru : CacheLib) (size : lru.Cache → ℕ) where
  open lru use {Cache, new_cache, lookup, add, remove, wants_dnssec}

  -- `store`, and the gauge.
  pub record Store : Type 0 where
    pub held : Cache
    pub entries : ℕ

  -- `newStore`. A gauge begins at 0.
  unfoldable pub new_store : ℕ → Store
  new_store capacity = record { held = new_cache capacity; entries = 0 }

  unfoldable pub len : Store → ℕ
  len s = size s.held

  unfoldable pub set_gauge : Cache → Store
  set_gauge c = record { held = c; entries = size c }

  unfoldable pub store_put_for : ℕ → Msg → Msg → Option ℕ → Store → Store
  unfolding set_gauge
  store_put_for now r m none s = s
  store_put_for now r m (some ttl) s =
      if ltb (ttl * second) min_serve_ttl
      then s
      else set_gauge (add (key lib lru r) (record { msg = m; stored = now; orig_ttl = ttl }) s.held)

  unfoldable pub store_put : ℕ → Msg → Option Msg → Store → Store
  unfolding store_put_for
  store_put now r none s = s
  store_put now r (some m) s =
      if not (storable lib lru r (some m)) then s else store_put_for now r m (min_ttl m) s

  unfoldable pub store_get_for : ℕ → Msg → Option Entry → Store → Store × Option Msg
  unfolding set_gauge
  store_get_for now r none s = (s, none)
  store_get_for now r (some e) s =
      if is_stale lib lru now e
      then (set_gauge (remove (key lib lru r) s.held), none)
      else (s, some (serve_entry lib lru now r e))

  unfoldable pub store_get : ℕ → Msg → Store → Store × Option Msg
  unfolding store_get_for
  store_get now r s =
      if wants_dnssec r || r.checking_disabled
      then (s, none)
      else store_get_for now r (lookup (key lib lru r) s.held) s

  unfoldable pub store_run : List Call → Store → Store
  unfolding store_put store_get
  store_run [] s = s
  store_run (putting now r m ∷ calls) s = store_put now r m (store_run calls s)
  store_run (getting now r ∷ calls) s = (store_get now r (store_run calls s)).0

  -- The gauge is the cache's length.
  pub IsExact : Store → Type 0
  IsExact s = s.entries ≡ size s.held

  store_put-IsExact :
      (now : ℕ) (r : Msg) (m : Option Msg) (s : Store) → IsExact s → IsExact (store_put now r m s)
  unfolding store_put store_put_for set_gauge IsExact
  store_put-IsExact now r none s h = h
  store_put-IsExact now r (some m) s h =
      if_cases IsExact (not (storable lib lru r (some m))) _ _ (λ _. h) (λ _. of_ttl (min_ttl m))
    where
      of_ttl : (o : Option ℕ) → IsExact (store_put_for now r m o s)
      of_ttl none = h
      of_ttl (some ttl) =
          if_cases IsExact (ltb (ttl * second) min_serve_ttl) _ _ (λ _. h) (λ _. refl)

  store_put-held :
      (now : ℕ) (r : Msg) (m : Option Msg) (s : Store)
      → (store_put now r m s).held ≡ put lib lru now r m s.held
  unfolding store_put store_put_for set_gauge put put_for
  store_put-held now r none s = refl
  store_put-held now r (some m) s = elim (Bool-cases (not (storable lib lru r (some m)))) [
    | inl skip ↦ rw skip refl
    | inr keep ↦ rw keep (of_ttl (min_ttl m))
  ]
    where
      of_ttl : (o : Option ℕ) → (store_put_for now r m o s).held ≡ put_for lib lru now r m o s.held
      of_ttl none = refl
      of_ttl (some ttl) = elim (Bool-cases (ltb (ttl * second) min_serve_ttl)) [
        | inl short ↦ rw short refl
        | inr long ↦ rw long refl
      ]

  store_get-IsExact : (now : ℕ) (r : Msg) (s : Store) → IsExact s → IsExact (store_get now r s).0
  unfolding store_get store_get_for set_gauge IsExact
  store_get-IsExact now r s h =
      if_cases (λ (t : Store × Option Msg). IsExact t.0) (wants_dnssec r || r.checking_disabled) _ _
        (λ _. h) (λ _. of_entry (lookup (key lib lru r) s.held))
    where
      of_entry : (o : Option Entry) → IsExact (store_get_for now r o s).0
      of_entry none = h
      of_entry (some e) =
          if_cases (λ (t : Store × Option Msg). IsExact t.0) (is_stale lib lru now e) _ _
            (λ _. refl) (λ _. h)

  store_get-get :
      (now : ℕ) (r : Msg) (s : Store)
      → ((store_get now r s).0.held ≡ (get lib lru now r s.held).0)
        × ((store_get now r s).1 ≡ (get lib lru now r s.held).1)
  unfolding store_get store_get_for set_gauge get get_for
  store_get-get now r s = elim (Bool-cases (wants_dnssec r || r.checking_disabled)) [
    | inl skip ↦ rw skip (refl, refl)
    | inr asked ↦ rw asked (of_entry (lookup (key lib lru r) s.held))
  ]
    where
      of_entry :
          (o : Option Entry)
          → ((store_get_for now r o s).0.held ≡ (get_for lib lru now r o s.held).0)
            × ((store_get_for now r o s).1 ≡ (get_for lib lru now r o s.held).1)
      of_entry none = (refl, refl)
      of_entry (some e) = elim (Bool-cases (is_stale lib lru now e)) [
        | inl stale ↦ rw stale (refl, refl)
        | inr alive ↦ rw alive (refl, refl)
      ]

  store_run-run :
      (calls : List Call) (n : ℕ)
      → (store_run calls (new_store n)).held ≡ run lib lru calls (new_cache n)
  unfolding store_run new_store run
  store_run-run [] n = refl
  store_run-run (putting now r m ∷ calls) n =
      store_put-held now r m (store_run calls (new_store n))
      ∙ ap (put lib lru now r m) (store_run-run calls n)
  store_run-run (getting now r ∷ calls) n =
      (store_get-get now r (store_run calls (new_store n))).0
      ∙ ap (λ c. (get lib lru now r c).0) (store_run-run calls n)

  -- The gauge is the number of entries after any calls on a new store, if a new cache is empty. It
  -- costs nothing: the store gives the answers that it gives without the gauge.
  pub store_run-IsExact :
      (calls : List Call) (n now : ℕ) (r : Msg)
      → size (new_cache n) ≡ 0
      → (len (store_run calls (new_store n)) ≡ (store_run calls (new_store n)).entries)
        × ((store_get now r (store_run calls (new_store n))).1
            ≡ (get lib lru now r (run lib lru calls (new_cache n))).1)
  unfolding len store_run new_store IsExact
  store_run-IsExact calls n now r empty = (
    sym (exact calls),
    (store_get-get now r (store_run calls (new_store n))).1
        ∙ ap (λ c. (get lib lru now r c).1) (store_run-run calls n),
  )
    where
      exact : (calls : List Call) → IsExact (store_run calls (new_store n))
      exact [] = sym empty
      exact (putting now r m ∷ calls) =
          store_put-IsExact now r m (store_run calls (new_store n)) (exact calls)
      exact (getting now r ∷ calls) =
          store_get-IsExact now r (store_run calls (new_store n)) (exact calls)
