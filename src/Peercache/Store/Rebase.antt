-- ===== src/Peercache/Store/Rebase.antt =====
-- The lifetimes that a sibling is told.
use homedns.Prelude.{
  ℕ, ◌+◌, ◌-◌, ◌*◌, ◌/◌, ◌^◌, ◌≤◌, ◌≡◌, ◌⊎◌, inl, inr, true, false, List, [], ◌∷◌, ◌++◌, map, All,
  All-append, arith, ◌==◌, if_cases, sym, subst,
}
use homedns.Dns.{Msg, Rr, DnsLib, type_opt}
use homedns.Peercache.Store.{
  Entry, CacheLib, second, min_serve_ttl, set_rr_ttl, set_ttl, is_stale, serve_entry,
}
use homedns.Peercache.Store.Ttl.{records}

-- A record other than OPT lives for five seconds or more, and for `most` seconds at most.
abbrev pub IsInTime : ℕ → Rr → Type 0
IsInTime most rr = ((rr.rrtype == type_opt) ≡ true) ⊎ ((5 ≤ rr.ttl) × (rr.ttl ≤ most))

set_rr_ttl-IsInTime :
    (most ttl : ℕ)
    → 5 ≤ ttl
    → ttl ≤ most
    → (rrs : List Rr) → All (IsInTime most) (map (set_rr_ttl ttl) rrs)
unfolding set_rr_ttl
set_rr_ttl-IsInTime most ttl low high [] = tt
set_rr_ttl-IsInTime most ttl low high (rr ∷ rrs) = (
  if_cases (IsInTime most) (rr.rrtype == type_opt) rr (record rr { ttl = ttl }) (λ opt. inl opt)
      (λ plain. inr (low, high)),
  set_rr_ttl-IsInTime most ttl low high rrs,
)

set_ttl-IsInTime :
    (m : Msg) (most ttl : ℕ) → 5 ≤ ttl → ttl ≤ most → All (IsInTime most) (records (set_ttl m ttl))
unfolding set_ttl
set_ttl-IsInTime m most ttl low high =
    let each = set_rr_ttl-IsInTime most ttl low high in
    All-append (IsInTime most) (map (set_rr_ttl ttl) m.answer ++ map (set_rr_ttl ttl) m.ns) _
      (All-append (IsInTime most) (map (set_rr_ttl ttl) m.answer) _ (each m.answer) (each m.ns))
      (each m.extra)

-- An entry that is not stale is served with lifetimes from five seconds up to the one that it was
-- stored with, if the clock does not go back and the lifetime is at most 2 ^ 23 seconds, up to
-- which the conversion of a duration to seconds rounds down.
pub serve_entry-IsInTime :
    (lib : DnsLib) (lru : CacheLib) (now : ℕ) (r : Msg) (e : Entry)
    → ((d : ℕ) → d ≤ 2 ^ 23 * second → lru.whole_seconds d ≡ d / second)
    → is_stale lib lru now e ≡ false
    → e.stored ≤ now
    → e.orig_ttl ≤ 2 ^ 23
    → All (IsInTime e.orig_ttl) (records (serve_entry lib lru now r e))
unfolding serve_entry is_stale
serve_entry-IsInTime lib lru now r e floors alive later short =
    let left = e.orig_ttl * second + e.stored - now in
    let known : lru.whole_seconds left ≡ left / second = floors left (omega arith) in
    let ahead : min_serve_ttl + now ≤ e.orig_ttl * second + e.stored = ground arith in
    set_ttl-IsInTime (lib.set_rcode e.msg r e.msg.rcode) e.orig_ttl (lru.whole_seconds left)
      (subst (λ t. 5 ≤ t) (sym known) (omega arith))
      (subst (λ t. t ≤ e.orig_ttl) (sym known) (omega arith))
