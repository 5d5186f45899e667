-- ===== src/Peercache/Listener/Serve.antt =====
-- `serve` of plugin/peercache/listener.go: the probes that come in one after the other, and the
-- counters of the plugin's metrics.
use homedns.Prelude.{
  ℕ, suc, ◌+◌, ◌≡◌, refl, sym, ap, subst, ◌∙◌, Bool, true, false, not, List, [], ◌∷◌, Bytes, All,
  arith, length, if◌then◌else◌, Bool-cases, inl, inr,
}
use homedns.Dns.{Msg, new_msg, DnsLib, rcode_refused}
use homedns.Peercache.Store.{CacheLib}
use homedns.Peercache.Listener.{NetLib, is_peer, refusal, serve_probe}

-- A probe, with its time and the address that it comes from.
pub record Probe : Type 0 where
  pub now : ℕ
  pub remote : Bytes
  pub request : Msg

module _ (lib : DnsLib) (lru : CacheLib) (net : NetLib) where
  open lru use {Cache}

  -- The store, and the counters `probes_total` for `received` and `probe_failures_total` for
  -- `not_a_peer`.
  pub record Served : Type 0 where
    pub held : Cache
    pub received : ℕ
    pub not_a_peer : ℕ

  -- `serveProbe` with its counters, and the message that it writes.
  unfoldable pub handle : List Bytes → Probe → Served → Served × Msg
  handle peers p s =
      let out = serve_probe lib lru net peers p.now p.remote p.request s.held in
      (
        record {
          held = out.0;
          received = suc s.received;
          not_a_peer = if not (is_peer net p.remote peers) then suc s.not_a_peer else s.not_a_peer;
        },
        out.1,
      )

  -- The probes in their order, each with the peer set of its time, and the replies to them.
  unfoldable pub serve : List (List Bytes × Probe) → Served → Served × List Msg
  unfolding handle
  serve [] s = (s, [])
  serve ((peers, p) ∷ probes) s =
      let (mid, m) = handle peers p s in let (out, ms) = serve probes mid in (out, m ∷ ms)

  -- The probes that come from a sibling's address.
  unfoldable pub siblings_of : List (List Bytes × Probe) → List (List Bytes × Probe)
  siblings_of [] = []
  siblings_of ((peers, p) ∷ probes) =
      if is_peer net p.remote peers then (peers, p) ∷ siblings_of probes else siblings_of probes

  -- The replies to siblings, and those to strangers.
  unfoldable pub replies_to : Bool → List (List Bytes × Probe) → List Msg → List Msg
  replies_to known [] ms = []
  replies_to known (p ∷ probes) [] = []
  replies_to known ((peers, p) ∷ probes) (m ∷ ms) =
      let rest = replies_to known probes ms in
      if (if known then is_peer net p.remote peers else not (is_peer net p.remote peers))
      then m ∷ rest
      else rest

  pub record IsUndisturbed (probes : List (List Bytes × Probe)) (s u : Served) : Type 0 where
    pub same_held : (serve probes s).0.held ≡ (serve (siblings_of probes) u).0.held
    pub same_replies : replies_to true probes (serve probes s).1 ≡ (serve (siblings_of probes) u).1
    pub refused :
        All (λ (m : Msg). m.rcode ≡ rcode_refused) (replies_to false probes (serve probes s).1)
    pub counted : (serve probes s).0.received ≡ s.received + length probes
    pub failed :
        (serve probes s).0.not_a_peer + length (siblings_of probes) ≡ s.not_a_peer + length probes

  handle-known :
      (peers : List Bytes) (p : Probe) (s u : Served)
      → is_peer net p.remote peers ≡ true
      → s.held ≡ u.held
      → ((handle peers p s).0.held ≡ (handle peers p u).0.held)
        × ((handle peers p s).1 ≡ (handle peers p u).1)
        × ((handle peers p s).0.received ≡ suc s.received)
        × ((handle peers p s).0.not_a_peer ≡ s.not_a_peer)
  unfolding handle
  handle-known peers p s u known same =
      let out = ap (serve_probe lib lru net peers p.now p.remote p.request) same in
      (ap (λ t. t.0) out, ap (λ t. t.1) out, refl, rw known refl)

  handle-stranger :
      (peers : List Bytes) (p : Probe) (s : Served)
      → is_peer net p.remote peers ≡ false
      → ((handle peers p s).0.held ≡ s.held)
        × ((handle peers p s).1.rcode ≡ rcode_refused)
        × ((handle peers p s).0.received ≡ suc s.received)
        × ((handle peers p s).0.not_a_peer ≡ suc s.not_a_peer)
  unfolding handle serve_probe refusal
  handle-stranger peers p s unknown =
      rw unknown (refl, lib.set_rcode-rcode new_msg p.request rcode_refused, refl, refl)

  siblings_of-known :
      (peers : List Bytes) (p : Probe) (probes : List (List Bytes × Probe))
      → is_peer net p.remote peers ≡ true
      → siblings_of ((peers, p) ∷ probes) ≡ (peers, p) ∷ siblings_of probes
  unfolding siblings_of
  siblings_of-known peers p probes known = rw known refl

  siblings_of-stranger :
      (peers : List Bytes) (p : Probe) (probes : List (List Bytes × Probe))
      → is_peer net p.remote peers ≡ false
      → siblings_of ((peers, p) ∷ probes) ≡ siblings_of probes
  unfolding siblings_of
  siblings_of-stranger peers p probes unknown = rw unknown refl

  -- Whether a probe is of the kind asked for.
  abbrev of_kind : Bool → List Bytes → Probe → Bool
  of_kind known peers p =
      if known then is_peer net p.remote peers else not (is_peer net p.remote peers)

  replies_to-kept :
      (known : Bool) (peers : List Bytes) (p : Probe) (probes : List (List Bytes × Probe)) (m : Msg)
      (ms : List Msg)
      → of_kind known peers p ≡ true
      → replies_to known ((peers, p) ∷ probes) (m ∷ ms) ≡ m ∷ replies_to known probes ms
  unfolding replies_to
  replies_to-kept known peers p probes m ms is =
      ap (λ (b : Bool). if b then m ∷ replies_to known probes ms else replies_to known probes ms) is

  replies_to-left :
      (known : Bool) (peers : List Bytes) (p : Probe) (probes : List (List Bytes × Probe)) (m : Msg)
      (ms : List Msg)
      → of_kind known peers p ≡ false
      → replies_to known ((peers, p) ∷ probes) (m ∷ ms) ≡ replies_to known probes ms
  unfolding replies_to
  replies_to-left known peers p probes m ms is =
      ap (λ (b : Bool). if b then m ∷ replies_to known probes ms else replies_to known probes ms) is

  serve-IsUndisturbed :
      (probes : List (List Bytes × Probe)) (s u : Served)
      → s.held ≡ u.held
      → IsUndisturbed probes s u
  unfolding serve siblings_of replies_to
  serve-IsUndisturbed [] s u same = record {
    same_held = same;
    same_replies = refl;
    refused = tt;
    counted = omega arith;
    failed = omega arith;
  }
  serve-IsUndisturbed ((peers, p) ∷ probes) s u same =
      elim (Bool-cases (is_peer net p.remote peers)) [
        | inl known ↦
            let (held, reply, received, failures) = handle-known peers p s u known same in
            let ih = serve-IsUndisturbed probes (handle peers p s).0 (handle peers p u).0 held in
            let sibs = siblings_of-known peers p probes known in
            let ms = (serve probes (handle peers p s).0).1 in
            record {
              same_held = ih.same_held ∙ ap (λ t. (serve t u).0.held) (sym sibs);
              same_replies =
                  replies_to-kept true peers p probes ((handle peers p s).1) ms known
                  ∙ cc (reply, ih.same_replies)
                  ∙ ap (λ t. (serve t u).1) (sym sibs);
              refused =
                  subst (All (λ (m : Msg). m.rcode ≡ rcode_refused))
                    (sym (
                      replies_to-left false peers p probes ((handle peers p s).1) ms
                        (ap not known)))
                    ih.refused;
              counted = omega (arith, ih.counted, received);
              failed = omega (arith, ih.failed, failures, ap length sibs);
            }
        | inr unknown ↦
            let (held, reply, received, failures) = handle-stranger peers p s unknown in
            let ih = serve-IsUndisturbed probes (handle peers p s).0 u (held ∙ same) in
            let sibs = siblings_of-stranger peers p probes unknown in
            let ms = (serve probes (handle peers p s).0).1 in
            record {
              same_held = ih.same_held ∙ ap (λ t. (serve t u).0.held) (sym sibs);
              same_replies =
                  replies_to-left true peers p probes ((handle peers p s).1) ms unknown
                  ∙ ih.same_replies
                  ∙ ap (λ t. (serve t u).1) (sym sibs);
              refused =
                  subst (All (λ (m : Msg). m.rcode ≡ rcode_refused))
                    (sym (
                      replies_to-kept false peers p probes ((handle peers p s).1) ms
                        (ap not unknown)))
                    (reply, ih.refused);
              counted = omega (arith, ih.counted, received);
              failed = omega (arith, ih.failed, failures, ap length sibs);
            }
      ]

  abbrev pub new_served : Cache → Served
  new_served c = record { held = c; received = 0; not_a_peer = 0 }

  -- Strangers disturb nobody: with their probes among those of the siblings, the store and the
  -- replies to siblings are what they are without, each stranger gets REFUSED, and the failure counter
  -- counts exactly the strangers.
  pub serve-strangers :
      (probes : List (List Bytes × Probe)) (c : Cache)
      → IsUndisturbed probes (new_served c) (new_served c)
  serve-strangers probes c = serve-IsUndisturbed probes (new_served c) (new_served c) refl
