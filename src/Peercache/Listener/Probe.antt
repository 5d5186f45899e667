-- ===== src/Peercache/Listener/Probe.antt =====
-- Who gets an answer from the probe listener.
use homedns.Prelude.{
  ℕ, ◌≡◌, ◌≢◌, refl, sym, ap, ◌∙◌, ◌⊎◌, inl, inr, true, false, not, List, [], ◌∷◌, Option, none,
  some, Memᴰ, Bytes, ◌==◌, length, arith, Bool-cases, if_cases, ==_iff,
}
use homedns.Dns.{Msg, new_msg, DnsLib, rcode_refused}
use homedns.Peercache.Store.{CacheLib, get}
use homedns.Peercache.Listener.{
  NetLib, parse_host, same_ip, peer_loop, peer_with, is_peer, refusal, or_refuse, serve_probe,
}

-- A sibling's address, up to the port.
pub record IsSibling (net : NetLib) (remote : Bytes) (peers : List Bytes) : Type 0 where
  pub ip : Bytes
  pub other : Bytes
  pub sibling : Bytes
  pub remote_ip : parse_host net (net.host_of remote) ≡ some ip
  pub listed : Memᴰ sibling peers
  pub sibling_ip : parse_host net (net.host_of sibling) ≡ some other
  pub equal : net.ip_equal ip other ≡ true

peer_loop-mem :
    (net : NetLib) (ip : Bytes) (peers : List Bytes)
    → peer_loop net ip peers ≡ true
    → (p : Bytes) × Memᴰ p peers × (same_ip net ip (parse_host net (net.host_of p)) ≡ true)
unfolding peer_loop
peer_loop-mem net ip [] h = ground arith
peer_loop-mem net ip (p ∷ peers) h =
    elim (Bool-cases (same_ip net ip (parse_host net (net.host_of p)))) [
      | inl same ↦ (p, Memᴰ.head refl, same)
      | inr not_same ↦
          let (q, mem, same) = peer_loop-mem net ip peers (ground arith) in (q, Memᴰ.tail mem, same)
    ]

same_ip-some :
    (net : NetLib) (ip : Bytes) (o : Option Bytes)
    → same_ip net ip o ≡ true
    → (other : Bytes) × (o ≡ some other) × (net.ip_equal ip other ≡ true)
unfolding same_ip
same_ip-some net ip none h = ground arith
same_ip-some net ip (some other) h = (other, refl, h)

pub is_peer-IsSibling :
    (net : NetLib) (remote : Bytes) (peers : List Bytes)
    → is_peer net remote peers ≡ true
    → IsSibling net remote peers
unfolding is_peer peer_with
is_peer-IsSibling net remote peers h = with_ip (parse_host net (net.host_of remote)) refl h
  where
    with_ip :
        (o : Option Bytes)
        → parse_host net (net.host_of remote) ≡ o
        → peer_with net o peers ≡ true
        → IsSibling net remote peers
    with_ip none at h = ground arith
    with_ip (some ip) at h =
        let (p, mem, same) = peer_loop-mem net ip peers h in
        let (other, known, equal) = same_ip-some net ip (parse_host net (net.host_of p)) same in
        record {
          ip = ip;
          other = other;
          sibling = p;
          remote_ip = at;
          listed = mem;
          sibling_ip = known;
          equal = equal;
        }

mem-peer_loop :
    (net : NetLib) (ip : Bytes) {p : Bytes} {peers : List Bytes}
    → Memᴰ p peers
    → same_ip net ip (parse_host net (net.host_of p)) ≡ true
    → peer_loop net ip peers ≡ true
unfolding peer_loop
mem-peer_loop net ip (Memᴰ.head e) same = rw (← e) (rw same refl)
mem-peer_loop net ip {peers = q ∷ peers} (Memᴰ.tail m) same =
    if_cases (λ b. b ≡ true) (same_ip net ip (parse_host net (net.host_of q))) _ _ (λ _. refl)
      (λ _. mem-peer_loop net ip m same)

pub IsSibling-is_peer :
    (net : NetLib) (remote : Bytes) (peers : List Bytes)
    → IsSibling net remote peers
    → is_peer net remote peers ≡ true
unfolding is_peer peer_with same_ip
IsSibling-is_peer net remote peers s =
    rw (s.remote_ip, peer_with)
      (mem-peer_loop net s.ip s.listed (rw (s.sibling_ip, same_ip) s.equal))

or_refuse-some :
    (lib : DnsLib) (r : Msg) (o : Option Msg)
    → (or_refuse lib r o).rcode ≢ rcode_refused
    → o ≡ some (or_refuse lib r o)
unfolding or_refuse refusal
or_refuse-some lib r none h = absurd (h (lib.set_rcode-rcode new_msg r rcode_refused))
or_refuse-some lib r (some m) h = refl

-- What a probe from a sibling with one question gets.
serve_probe-known :
    (lib : DnsLib) (lru : CacheLib) (net : NetLib) (peers : List Bytes) (now : ℕ) (remote : Bytes)
    (r : Msg) (c : lru.Cache)
    → is_peer net remote peers ≡ true
    → (length r.question == 1) ≡ true
    → serve_probe lib lru net peers now remote r c
      ≡ ((get lib lru now r c).0, or_refuse lib r (get lib lru now r c).1)
unfolding serve_probe
serve_probe-known lib lru net peers now remote r c known single = rw known (rw single refl)

serve_probe-unknown :
    (lib : DnsLib) (lru : CacheLib) (net : NetLib) (peers : List Bytes) (now : ℕ) (remote : Bytes)
    (r : Msg) (c : lru.Cache)
    → (is_peer net remote peers ≡ false) ⊎ ((length r.question == 1) ≡ false)
    → (serve_probe lib lru net peers now remote r c).1.rcode ≡ rcode_refused
unfolding serve_probe refusal
serve_probe-unknown lib lru net peers now remote r c (inl unknown) =
    rw unknown (lib.set_rcode-rcode new_msg r rcode_refused)
serve_probe-unknown lib lru net peers now remote r c (inr many) = rw many (
    if_cases (λ (t : lru.Cache × Msg). t.1.rcode ≡ rcode_refused) (not (is_peer net remote peers)) _
      _ (λ _. lib.set_rcode-rcode new_msg r rcode_refused)
      (λ _. lib.set_rcode-rcode new_msg r rcode_refused))

-- A probe that gets an answer other than REFUSED comes from a sibling's address and has one
-- question, and the answer is the one that the store gives for it.
pub serve_probe-answers :
    (lib : DnsLib) (lru : CacheLib) (net : NetLib) (peers : List Bytes) (now : ℕ) (remote : Bytes)
    (r : Msg) (c : lru.Cache)
    → (serve_probe lib lru net peers now remote r c).1.rcode ≢ rcode_refused
    → IsSibling net remote peers
      × (length r.question ≡ 1)
      × ((get lib lru now r c).1 ≡ some (serve_probe lib lru net peers now remote r c).1)
serve_probe-answers lib lru net peers now remote r c h =
    elim (Bool-cases (is_peer net remote peers)) [
      | inl known ↦ elim (Bool-cases (length r.question == 1)) [
        | inl single ↦
            let out = serve_probe-known lib lru net peers now remote r c known single in
            let gets =
              or_refuse-some lib r (get lib lru now r c).1
                (λ refused. h (ap (λ t. t.1.rcode) out ∙ refused)) in
            (
              is_peer-IsSibling net remote peers known,
              (==_iff _ _).0 single,
              gets ∙ ap (λ t. some t.1) (sym out),
            )
        | inr many ↦ absurd (h (serve_probe-unknown lib lru net peers now remote r c (inr many)))
      ]
      | inr unknown ↦
          absurd (h (serve_probe-unknown lib lru net peers now remote r c (inl unknown)))
    ]
