-- ===== src/Peercache/Contest/Count.antt =====
-- What plugin/peercache/peercache.go counts: the probes that are sent, those that fail, and the wins.
use homedns.Prelude.{
  ℕ, zero, suc, ◌+◌, ◌≤◌, ◌≡◌, refl, ap, ◌∙◌, true, List, [], ◌∷◌, ◌++◌, Option, none, some, Bytes,
  All, arith, length, if◌then◌else◌,
}
use homedns.Dns.{useful}
use homedns.Peercache.Contest.{
  Source, peer, upstream, Event, done, result, LegResult, Exchanged, replied, broken, Failure, late,
  broke, probe,
}
use homedns.Peercache.Contest.First.{Timed, IsLosing, arrivals}

-- `winsCount`, `probesCount` for `sent`, and `probeFailures` for `timeout` and `error`.
pub record Counters : Type 0 where
  pub peer_wins : ℕ
  pub upstream_wins : ℕ
  pub sent : ℕ
  pub late_probes : ℕ
  pub broken_probes : ℕ

unfoldable pub count_failure : Option Failure → Counters → Counters
count_failure none n = n
count_failure (some late) n = record n { late_probes = suc n.late_probes }
count_failure (some broke) n = record n { broken_probes = suc n.broken_probes }

-- A call of `probe`.
unfoldable pub count_probe : Exchanged → Counters → Counters
unfolding count_failure
count_probe got n = count_failure (probe got).1 (record n { sent = suc n.sent })

unfoldable pub count_probes : List Exchanged → Counters → Counters
unfolding count_probe
count_probes [] n = n
count_probes (got ∷ gots) n = count_probes gots (count_probe got n)

-- The loop of `race`: the source of the result that it counts as a win.
unfoldable pub winner : ℕ → List (ℕ × Event) → Option Source
winner zero events = none
winner (suc legs) [] = none
winner (suc legs) ((now, done e) ∷ events) = none
winner (suc legs) ((now, result res) ∷ events) =
    let onward = winner legs events in if useful res.msg then some res.source else onward

unfoldable pub count_win : Option Source → Counters → Counters
count_win none n = n
count_win (some peer) n = record n { peer_wins = suc n.peer_wins }
count_win (some upstream) n = record n { upstream_wins = suc n.upstream_wins }

-- `race` with the exchanges of its probes and the events in its loop.
unfoldable pub count_race : List Bytes → List Exchanged → List (ℕ × Event) → Counters → Counters
unfolding count_probes winner count_win
count_race peers gots events n =
    count_win (winner (suc (length peers)) events) (count_probes gots n)

-- The exchanges that end with an error.
abbrev pub failed : List Exchanged → List Exchanged
failed [] = []
failed (replied m ∷ gots) = failed gots
failed (broken e ∷ gots) = broken e ∷ failed gots

-- From `n` to `out`, `sent` probes were sent and at most `lost` of them failed; no win was counted.
record IsProbed (sent lost : ℕ) (n out : Counters) : Type 0 where
  all_sent : out.sent ≡ n.sent + sent
  peer_wins : out.peer_wins ≡ n.peer_wins
  upstream_wins : out.upstream_wins ≡ n.upstream_wins
  few : out.late_probes + out.broken_probes ≤ n.late_probes + n.broken_probes + lost

count_failure-few :
    (o : Option Failure) (n : Counters)
    → IsProbed 1 1 n (count_failure o (record n { sent = suc n.sent }))
unfolding count_failure
count_failure-few none n = record {
  all_sent = omega arith;
  peer_wins = refl;
  upstream_wins = refl;
  few = omega arith;
}
count_failure-few (some late) n = record {
  all_sent = omega arith;
  peer_wins = refl;
  upstream_wins = refl;
  few = omega arith;
}
count_failure-few (some broke) n = record {
  all_sent = omega arith;
  peer_wins = refl;
  upstream_wins = refl;
  few = omega arith;
}

IsProbed-lost :
    {j l : ℕ} {n mid out : Counters}
    → IsProbed 1 1 n mid
    → IsProbed j l mid out
    → IsProbed (suc j) (suc l) n out
IsProbed-lost p q = record {
  all_sent = omega arith;
  peer_wins = q.peer_wins ∙ p.peer_wins;
  upstream_wins = q.upstream_wins ∙ p.upstream_wins;
  few = omega arith;
}

IsProbed-sent :
    {j l : ℕ} {n out : Counters}
    → IsProbed j l (record n { sent = suc n.sent }) out
    → IsProbed (suc j) l n out
IsProbed-sent q = record {
  all_sent = omega arith;
  peer_wins = q.peer_wins;
  upstream_wins = q.upstream_wins;
  few = q.few;
}

count_probes-IsProbed :
    (gots : List Exchanged) (n : Counters)
    → IsProbed (length gots) (length (failed gots)) n (count_probes gots n)
unfolding count_probes count_probe count_failure probe
count_probes-IsProbed [] n = record {
  all_sent = omega arith;
  peer_wins = refl;
  upstream_wins = refl;
  few = omega arith;
}
count_probes-IsProbed (replied m ∷ gots) n =
    IsProbed-sent (count_probes-IsProbed gots (record n { sent = suc n.sent }))
count_probes-IsProbed (broken e ∷ gots) n =
    IsProbed-lost (count_failure-few (probe (broken e)).1 n)
      (count_probes-IsProbed gots (count_probe (broken e) n))

winner-first :
    (legs : ℕ) (before : List Timed) (now : ℕ) (res : LegResult) (rest : List (ℕ × Event))
    → All IsLosing before
    → length before ≤ legs
    → useful res.msg ≡ true
    → winner (suc legs) (arrivals before ++ (now, result res) ∷ rest) ≡ some res.source
unfolding winner
winner-first legs [] now res rest h le u = ground arith
winner-first zero (b ∷ before) now res rest h le u = absurd (omega arith)
winner-first (suc legs) (b ∷ before) now res rest h le u =
    rw h.0 (winner-first legs before now res rest h.1 (omega arith) u)

-- When the first useful result is the upstream's, `race` has counted one probe for each exchange, at
-- most one failure for each error, and one win of the upstream.
pub count_race-upstream :
    (peers : List Bytes) (gots : List Exchanged) (before : List Timed) (now : ℕ) (res : LegResult)
    (rest : List (ℕ × Event)) (n : Counters)
    → All IsLosing before
    → length before ≤ length peers
    → useful res.msg ≡ true
    → res.source ≡ upstream
    → let out = count_race peers gots (arrivals before ++ (now, result res) ∷ rest) n in
      (out.upstream_wins ≡ suc n.upstream_wins)
      × (out.peer_wins ≡ n.peer_wins)
      × (out.sent ≡ n.sent + length gots)
      × (out.late_probes + out.broken_probes
          ≤ n.late_probes + n.broken_probes + length (failed gots))
unfolding count_race count_win
count_race-upstream peers gots before now res rest n losing more u from =
    let probed = count_probes-IsProbed gots n in
    rw (winner-first (length peers) before now res rest losing more u, from)
      (ap suc probed.upstream_wins, probed.peer_wins, probed.all_sent, probed.few)
