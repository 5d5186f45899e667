-- ===== src/Peercache/Store/Lifetime.antt =====
-- What the store serves: answers that were put in, for as long as they live.
use homedns.Prelude.{
  ℕ, ◌+◌, ◌*◌, ◌≤◌, ◌≡◌, refl, sym, subst, ap, ◌∙◌, inl, inr, true, false, not, ◌||◌, List, [], ◌∷◌,
  Option, none, some, Memᴰ, arith, ltb, ◌==◌, ==_iff, Bool-cases, if◌then◌else◌, if_cases,
}
use mathlib.Core.Option.{some-injective}
use homedns.Dns.{Msg, DnsLib}
use homedns.Peercache.Store.{
  Entry, CacheLib, second, min_serve_ttl, min_ttl, storable, key, put_for, put, is_stale,
  serve_entry, get_for, get,
}

-- A call of `put` that got as far as the cache.
pub record Put : Type 0 where
  pub now : ℕ
  pub request : Msg
  pub msg : Msg
  pub ttl : ℕ

-- A call on the store, with the time of it.
pub data Call : Type 0 where
  putting : ℕ → Msg → Option Msg → Call
  getting : ℕ → Msg → Call

module _ (lib : DnsLib) (lru : CacheLib) where
  open lru use {Cache, lookup, lookup-add, lookup-remove, lookup-new_cache, new_cache}

  -- An entry that such a call left: storable, alive for five seconds or more, under its own key.
  pub record IsFrom (k : ℕ) (e : Entry) (p : Put) : Type 0 where
    pub same_key : key lib lru p.request ≡ k
    pub stored_ok : storable lib lru p.request (some p.msg) ≡ true
    pub least : min_ttl p.msg ≡ some p.ttl
    pub long : min_serve_ttl ≤ p.ttl * second
    pub entry : e ≡ record { msg = p.msg; stored = p.now; orig_ttl = p.ttl }

  -- Every entry of the cache is from a call in the log.
  abbrev pub IsHonest : List Put → Cache → Type 0
  IsHonest log c = (k : ℕ) (e : Entry) → lookup k c ≡ some e → (p : Put) × Memᴰ p log × IsFrom k e p

  put_for-IsHonest :
      (now : ℕ) (r m : Msg) (ttl : ℕ) (log : List Put) (c : Cache)
      → storable lib lru r (some m) ≡ true
      → min_ttl m ≡ some ttl
      → IsHonest log c
      → IsHonest
          (record { now = now; request = r; msg = m; ttl = ttl } ∷ log)
          (put_for lib lru now r m (some ttl) c)
  unfolding put_for
  put_for-IsHonest now r m ttl log c ok least h =
      if_cases (IsHonest (record { now = now; request = r; msg = m; ttl = ttl } ∷ log))
        (ltb (ttl * second) min_serve_ttl) c _
        (λ short k e found. let (p, mem, from) = h k e found in (p, Memᴰ.tail mem, from))
        (λ long k e found. added k e (ground arith) (lookup-add (key lib lru r) k fresh e c found))
    where
      fresh : Entry
      fresh = record { msg = m; stored = now; orig_ttl = ttl }

      added :
          (k : ℕ) (e : Entry)
          → min_serve_ttl ≤ ttl * second
          → (if key lib lru r == k then some fresh else lookup k c) ≡ some e
          → (p : Put) × Memᴰ p (record { now = now; request = r; msg = m; ttl = ttl } ∷ log)
            × IsFrom k e p
      added k e long found = elim (Bool-cases (key lib lru r == k)) [
        | inl same ↦ (
          record { now = now; request = r; msg = m; ttl = ttl },
          Memᴰ.head refl,
          record {
            same_key = (==_iff _ _).0 same;
            stored_ok = ok;
            least = least;
            long = long;
            entry = sym (some-injective fresh e (rw same at found));
          },
        )
        | inr other ↦ let (p, mem, from) = h k e (rw other at found) in (p, Memᴰ.tail mem, from)
      ]

  -- The log after a call of `put`.
  logged_for : ℕ → Msg → Msg → Option ℕ → List Put → List Put
  logged_for now r m none log = log
  logged_for now r m (some ttl) log = record { now = now; request = r; msg = m; ttl = ttl } ∷ log

  pub logged : ℕ → Msg → Option Msg → List Put → List Put
  unfolding logged_for
  logged now r none log = log
  logged now r (some m) log = logged_for now r m (min_ttl m) log

  put_some-IsHonest :
      (now : ℕ) (r m : Msg) (least : Option ℕ) (log : List Put) (c : Cache)
      → min_ttl m ≡ least
      → storable lib lru r (some m) ≡ true
      → IsHonest log c
      → IsHonest (logged_for now r m least log) (put_for lib lru now r m least c)
  unfolding logged_for put_for
  put_some-IsHonest now r m none log c e ok h = h
  put_some-IsHonest now r m (some ttl) log c e ok h = put_for-IsHonest now r m ttl log c ok e h

  logged_for_mono :
      (now : ℕ) (r m : Msg) (least : Option ℕ) (log : List Put) (c : Cache)
      → IsHonest log c
      → IsHonest (logged_for now r m least log) c
  unfolding logged_for
  logged_for_mono now r m none log c h k f found = h k f found
  logged_for_mono now r m (some ttl) log c h k f found =
      let (p, mem, from) = h k f found in (p, Memᴰ.tail mem, from)

  put-IsHonest :
      (now : ℕ) (r : Msg) (m : Option Msg) (log : List Put) (c : Cache)
      → IsHonest log c
      → IsHonest (logged now r m log) (put lib lru now r m c)
  unfolding put logged
  put-IsHonest now r none log c h = h
  put-IsHonest now r (some m) log c h =
      if_cases (IsHonest (logged now r (some m) log)) (not (storable lib lru r (some m))) c _
        (λ _. logged_for_mono now r m (min_ttl m) log c h)
        (λ ok. put_some-IsHonest now r m (min_ttl m) log c refl (ground arith) h)

  remove-IsHonest :
      (j : ℕ) (log : List Put) (c : Cache) → IsHonest log c → IsHonest log (lru.remove j c)
  remove-IsHonest j log c h k e found = elim (Bool-cases (j == k)) [
    | inl same ↦ absurd (ground (arith, lookup-remove j k c))
    | inr other ↦ h k e (rw other at (sym (lookup-remove j k c) ∙ found))
  ]

  get-IsHonest :
      (now : ℕ) (r : Msg) (log : List Put) (c : Cache)
      → IsHonest log c
      → IsHonest log (get lib lru now r c).0
  unfolding get get_for
  get-IsHonest now r log c h =
      if_cases (λ (t : Cache × Option Msg). IsHonest log t.0)
        (lru.wants_dnssec r || r.checking_disabled) (c, none) _ (λ _. h)
        (λ _. held (lookup (key lib lru r) c))
    where
      held : (o : Option Entry) → IsHonest log (get_for lib lru now r o c).0
      held none = h
      held (some e) =
          if_cases (λ (t : Cache × Option Msg). IsHonest log t.0) (is_stale lib lru now e) _ _
            (λ _. remove-IsHonest (key lib lru r) log c h) (λ _. h)

  -- A store after calls on it, the latest first.
  unfoldable pub run : List Call → Cache → Cache
  run [] c = c
  run (putting now r m ∷ calls) c = put lib lru now r m (run calls c)
  run (getting now r ∷ calls) c = (get lib lru now r (run calls c)).0

  -- What got into the cache by the calls.
  pub log_of : List Call → List Put
  log_of [] = []
  log_of (putting now r m ∷ calls) = logged now r m (log_of calls)
  log_of (getting now r ∷ calls) = log_of calls

  -- After any calls on a fresh store, every entry is from one of the calls of `put`.
  run-IsHonest : (calls : List Call) (n : ℕ) → IsHonest (log_of calls) (run calls (new_cache n))
  unfolding run log_of
  run-IsHonest [] n k e found = ground (arith, lookup-new_cache k n)
  run-IsHonest (putting now r m ∷ calls) n k e found =
      put-IsHonest now r m (log_of calls) (run calls (new_cache n)) (run-IsHonest calls n) k e found
  run-IsHonest (getting now r ∷ calls) n k e found =
      get-IsHonest now r (log_of calls) (run calls (new_cache n)) (run-IsHonest calls n) k e found

  -- What `get` returns comes from an entry that is not stale.
  get-entry :
      (now : ℕ) (r : Msg) (c : Cache) {m : Msg}
      → (get lib lru now r c).1 ≡ some m
      → (e : Entry) × (lookup (key lib lru r) c ≡ some e)
        × (is_stale lib lru now e ≡ false)
        × (m ≡ serve_entry lib lru now r e)
  unfolding get get_for
  get-entry now r c {m} h = elim (Bool-cases (lru.wants_dnssec r || r.checking_disabled)) [
    | inl skipped ↦ ground arith
    | inr asked ↦ found (lookup (key lib lru r) c) refl (rw asked at h)
  ]
    where
      found :
          (o : Option Entry)
          → lookup (key lib lru r) c ≡ o
          → (get_for lib lru now r o c).1 ≡ some m
          → (e : Entry) × (lookup (key lib lru r) c ≡ some e)
            × (is_stale lib lru now e ≡ false)
            × (m ≡ serve_entry lib lru now r e)
      found none at h = ground arith
      found (some e) at h = elim (Bool-cases (is_stale lib lru now e)) [
        | inl stale ↦ ground arith
        | inr alive ↦ (e, at, alive, sym (some-injective _ _ (rw alive at h)))
      ]

  -- An answer `get` gives at any time after any calls on a fresh store was put in by one of them,
  -- under the same key: as a storable message with its least TTL, which still has five seconds or
  -- more to run; it is served by `set_rcode` with the rest of that TTL.
  pub get-serves :
      (calls : List Call) (n now : ℕ) (r m : Msg)
      → (get lib lru now r (run calls (new_cache n))).1 ≡ some m
      → (p : Put) × Memᴰ p (log_of calls)
        × (key lib lru p.request ≡ key lib lru r)
        × (storable lib lru p.request (some p.msg) ≡ true)
        × (min_ttl p.msg ≡ some p.ttl)
        × (min_serve_ttl + now ≤ p.ttl * second + p.now)
        × (m ≡ serve_entry lib lru now r (record { msg = p.msg; stored = p.now; orig_ttl = p.ttl }))
  unfolding is_stale
  get-serves calls n now r m h =
      let (e, found, alive, eq) = get-entry now r (run calls (new_cache n)) h in
      let (p, mem, from) = run-IsHonest calls n (key lib lru r) e found in
      (
        p,
        mem,
        from.same_key,
        from.stored_ok,
        from.least,
        in_time p (subst (λ e. is_stale lib lru now e ≡ false) from.entry alive),
        eq ∙ ap (serve_entry lib lru now r) from.entry,
      )
    where
      in_time :
          (p : Put)
          → is_stale lib lru now (record { msg = p.msg; stored = p.now; orig_ttl = p.ttl }) ≡ false
          → min_serve_ttl + now ≤ p.ttl * second + p.now
      in_time p alive = ground arith
