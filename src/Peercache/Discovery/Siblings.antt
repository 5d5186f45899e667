-- ===== src/Peercache/Discovery/Siblings.antt =====
-- Whose probes are answered after the peer set was published.
use homedns.Prelude.{
  ℕ, ◌≡◌, ◌≢◌, refl, sym, ap, ◌∙◌, ◌↔◌, inl, inr, Bool, true, false, List, [], ◌∷◌, some, Memᴰ,
  Bytes, arith, Bool-cases, if_cases, is_empty, is_empty-nil, str_eq, str_eq-eq, str_eq_iff,
}
use homedns.Corefile.{TextLib}
use homedns.Blocklist.Matcher.{sort_strings}
use homedns.Blocklist.Matcher.Build.Sort.{sort_strings-mem}
use homedns.Peercache.Discovery.{Pod, Peers, peer_list, is_skipped, addrs_of, republish}
use homedns.Peercache.Listener.{NetLib, parse_host, is_peer}
use homedns.Peercache.Listener.Probe.{is_peer-IsSibling, IsSibling-is_peer}

-- A replica to ask: running, not on its way out, with an address that is not this replica's own.
pub record IsReplica (self : Bytes) (pod : Pod) : Type 0 where
  pub has_ip : pod.ip ≢ []
  pub not_self : pod.ip ≢ self
  pub running : pod.is_running ≡ true
  pub stays : pod.is_deleted ≡ false

not_true_of : (b : Bool) → b ≢ true → b ≡ false
not_true_of true h = absurd (h refl)
not_true_of false h = refl

is_skipped_iff : (self : Bytes) (pod : Pod) → (is_skipped self pod ≡ false) ↔ IsReplica self pod
unfolding is_skipped
is_skipped_iff self pod = (
  λ h.
      let has_ip : is_empty pod.ip ≡ false = ground arith in
      let not_self : str_eq pod.ip self ≡ false = ground arith in
      record {
        has_ip = λ e. cc (ap is_empty e, has_ip);
        not_self = λ e. cc ((str_eq_iff pod.ip self).1 e, not_self);
        running = ground arith;
        stays = ground arith;
      },
  λ r.
      let has_ip : is_empty pod.ip ≡ false =
        not_true_of (is_empty pod.ip) (λ e. r.has_ip (is_empty-nil pod.ip e)) in
      let not_self : str_eq pod.ip self ≡ false =
        not_true_of (str_eq pod.ip self) (λ e. r.not_self (str_eq-eq pod.ip self e)) in
      ground arith,
)

module _ (txt : TextLib) (port : ℕ) (self : Bytes) where
  addrs_of-mem :
      (pods : List Pod) {a : Bytes}
      → Memᴰ a (addrs_of txt port self pods)
      → (pod : Pod) × Memᴰ pod pods
        × IsReplica self pod
        × (a ≡ txt.join_host_port pod.ip (txt.itoa port))
  unfolding addrs_of
  addrs_of-mem [] m = elim m [ ]
  addrs_of-mem (pod ∷ pods) {a} m = elim (Bool-cases (is_skipped self pod)) [
    | inl skip ↦ let (p, mem, r, e) = addrs_of-mem pods (rw skip at m) in (p, Memᴰ.tail mem, r, e)
    | inr keep ↦ of_head ((is_skipped_iff self pod).0 keep) (addrs_of-mem pods) (rw keep at m)
  ]
    where
      of_head :
          IsReplica self pod
          → (Memᴰ a (addrs_of txt port self pods)
              → (p : Pod) × Memᴰ p pods
                × IsReplica self p
                × (a ≡ txt.join_host_port p.ip (txt.itoa port)))
          → Memᴰ a (txt.join_host_port pod.ip (txt.itoa port) ∷ addrs_of txt port self pods)
          → (p : Pod) × Memᴰ p (pod ∷ pods)
            × IsReplica self p
            × (a ≡ txt.join_host_port p.ip (txt.itoa port))
      of_head r others (Memᴰ.head e) = (pod, Memᴰ.head refl, r, e)
      of_head r others (Memᴰ.tail m) = let (p, mem, q, e) = others m in (p, Memᴰ.tail mem, q, e)

  mem-addrs_of :
      {pod : Pod} {pods : List Pod}
      → Memᴰ pod pods
      → IsReplica self pod
      → Memᴰ (txt.join_host_port pod.ip (txt.itoa port)) (addrs_of txt port self pods)
  unfolding addrs_of
  mem-addrs_of {pods = []} m r = elim m [ ]
  mem-addrs_of {pod = p} {pods = pod ∷ pods} (Memᴰ.head e) r =
      rw ((is_skipped_iff self pod).1 (rw e at r))
        (Memᴰ.head (ap (λ t. txt.join_host_port t.ip (txt.itoa port)) e))
  mem-addrs_of {pod = p} {pods = pod ∷ pods} (Memᴰ.tail m) r =
      if_cases (λ (addrs : List Bytes). Memᴰ (txt.join_host_port p.ip (txt.itoa port)) addrs)
        (is_skipped self pod) _ _ (λ _. mem-addrs_of m r) (λ _. Memᴰ.tail (mem-addrs_of m r))

  -- A replica's pod, with an address that equals a remote one up to the port.
  pub record IsKnown (net : NetLib) (remote : Bytes) (pods : List Pod) : Type 0 where
    pub pod : Pod
    pub listed : Memᴰ pod pods
    pub replica : IsReplica self pod
    pub ip : Bytes
    pub pod_ip : Bytes
    pub remote_ip : parse_host net (net.host_of remote) ≡ some ip
    pub parsed : net.parse_ip pod.ip ≡ some pod_ip
    pub equal : net.ip_equal ip pod_ip ≡ true

  -- After the pods are published, exactly the probes from a replica's address count as a sibling's.
  -- The hypothesis is that net.SplitHostPort gives back a pod's address that net.JoinHostPort joined
  -- to the port.
  pub republish-is_peer :
      (net : NetLib) (remote : Bytes) (pods : List Pod) (before : Peers)
      → ((pod : Pod)
          → Memᴰ pod pods
          → net.host_of (txt.join_host_port pod.ip (txt.itoa port)) ≡ some pod.ip)
      → (is_peer net remote (peer_list (republish txt port self (some pods) before).listed) ≡ true)
        ↔ IsKnown net remote pods
  unfolding republish peer_list parse_host
  republish-is_peer net remote pods before splits = (known, peer)
    where
      known :
          is_peer net remote (sort_strings (addrs_of txt port self pods)) ≡ true
          → IsKnown net remote pods
      known h =
          let s = is_peer-IsSibling net remote _ h in
          let (pod, mem, replica, e) =
            addrs_of-mem pods ((sort_strings-mem (addrs_of txt port self pods)).0 s.listed) in
          record {
            pod = pod;
            listed = mem;
            replica = replica;
            ip = s.ip;
            pod_ip = s.other;
            remote_ip = s.remote_ip;
            parsed = sym (ap (parse_host net) (ap net.host_of e ∙ splits pod mem)) ∙ s.sibling_ip;
            equal = s.equal;
          }

      peer :
          IsKnown net remote pods
          → is_peer net remote (sort_strings (addrs_of txt port self pods)) ≡ true
      peer k = IsSibling-is_peer net remote _ (record {
        ip = k.ip;
        other = k.pod_ip;
        sibling = txt.join_host_port k.pod.ip (txt.itoa port);
        remote_ip = k.remote_ip;
        listed =
            (sort_strings-mem (addrs_of txt port self pods)).1 (mem-addrs_of k.listed k.replica);
        sibling_ip = ap (parse_host net) (splits k.pod k.listed) ∙ k.parsed;
        equal = k.equal;
      })
