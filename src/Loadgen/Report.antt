-- ===== src/Loadgen/Report.antt =====
-- `report`, `pct` and `round` of scripts/loadgen/main.go.
use homedns.Prelude.{
  ℕ, zero, suc, ◌+◌, ◌-◌, ◌*◌, ◌^◌, ◌≤◌, ◌<◌, ◌≡◌, Bool, true, false, not, List, [], ◌∷◌, ◌++◌,
  Option, none, some, Bytes, length, is_empty, get_elem?, ltb, leb, map, if◌then◌else◌,
  take as first,
}
use homedns.Loadgen.{Tally, mismatches}
pub mod Sort
pub mod Quantile

-- int(float64(n) * p), where p is a percentage, time.Duration's Round, fmt's throughput of a number
-- of answers in a time, and dns.RcodeToString.
pub record ReportLib : Type 0 where
  pub scale : ℕ → ℕ → ℕ
  pub round_to : ℕ → ℕ → ℕ
  pub per_second : ℕ → ℕ → Bytes
  pub rcode_name : ℕ → Bytes

-- A float64 holds the integers up to 2 ^ 53, and its product with a number up to 1 is rounded no
-- further than to the integer. A larger factor gives no smaller product.
pub record ReportLaws (lib : ReportLib) : Type 0 where
  pub scale_le : (n p : ℕ) → n ≤ 2 ^ 53 → p ≤ 100 → lib.scale n p ≤ n
  pub scale_mono : (n p q : ℕ) → p ≤ q → lib.scale n p ≤ lib.scale n q

-- The lines that are printed.
pub data Printed : Type 0 where
  sent answered failed elapsed : ℕ → Printed
  throughput : Bytes → Printed
  latency : ℕ → ℕ → ℕ → ℕ → Printed
  rcodes : List (Bytes × ℕ) → Printed
  mismatch : ℕ → Bytes → Printed
  unexpected sample_error : Bytes → Printed

abbrev pub microsecond : ℕ
microsecond = 1000

abbrev pub millisecond : ℕ
millisecond = 1000 * microsecond

-- `sort.Slice` on the latencies.
unfoldable pub insert_duration : ℕ → List ℕ → List ℕ
insert_duration d [] = d ∷ []
insert_duration d (e ∷ es) =
    let rest = insert_duration d es in if ltb e d then e ∷ rest else d ∷ e ∷ es

unfoldable pub sort_durations : List ℕ → List ℕ
unfolding insert_duration
sort_durations [] = []
sort_durations (d ∷ ds) = insert_duration d (sort_durations ds)

-- The codes of a message's header and OPT record, which have twelve bits.
abbrev pub rcode_limit : ℕ
rcode_limit = 2 ^ 12

-- The keys of the map in order: the codes that were counted.
unfoldable pub codes_from : ℕ → ℕ → (ℕ → ℕ) → List ℕ
codes_from zero c counts = []
codes_from (suc k) c counts =
    let rest = codes_from k (suc c) counts in if ltb 0 (counts c) then c ∷ rest else rest

module _ (lib : ReportLib) where
  -- `none` is an index out of range.
  unfoldable pub pct : List ℕ → ℕ → Option ℕ
  pct sorted p = get_elem? sorted (lib.scale (length sorted - 1) p)

  unfoldable pub round : ℕ → ℕ
  round d =
      if ltb d millisecond then lib.round_to d microsecond else lib.round_to d (10 * microsecond)

  unfoldable pub latency_line : Option ℕ → Option ℕ → Option ℕ → Option ℕ → Option Printed
  unfolding round
  latency_line (some p50) (some p90) (some p99) (some most) =
      some (latency (round p50) (round p90) (round p99) (round most))
  latency_line _ _ _ _ = none

  unfoldable pub only_line : Option Printed → Option (List Printed)
  only_line none = none
  only_line (some line) = some (line ∷ [])

  -- The latencies in ascending order, if there are any.
  unfoldable pub latencies_part : List ℕ → Option (List Printed)
  unfolding pct latency_line only_line
  latencies_part [] = some []
  latencies_part (d ∷ ds) =
      let sorted = sort_durations (d ∷ ds) in
      only_line (
        latency_line (pct sorted 50) (pct sorted 90) (pct sorted 99)
          (get_elem? sorted (length sorted - 1)))

  unfoldable pub rcodes_part : (ℕ → ℕ) → Printed
  unfolding codes_from
  rcodes_part counts =
      rcodes (map (λ c. (lib.rcode_name c, counts c)) (codes_from rcode_limit 0 counts))

  unfoldable pub mismatch_part : Option ℕ → Tally → List Printed
  mismatch_part none r = []
  mismatch_part (some want) r =
      if ltb 0 (mismatches (some want) r)
      then mismatch (mismatches (some want) r) (lib.rcode_name want)
        ∷ map unexpected (first 10 r.unexpected)
      else []

  unfoldable pub first_part : ℕ → ℕ → Tally → List Printed
  first_part total took r =
      (sent total ∷ answered (length r.latencies) ∷ failed r.errors ∷ elapsed took ∷ [])
      ++ (if ltb 0 took then throughput (lib.per_second (length r.latencies) took) ∷ [] else [])

  unfoldable pub last_part : Option ℕ → Tally → List Printed
  unfolding rcodes_part mismatch_part
  last_part want r = (rcodes_part r.rcodes ∷ mismatch_part want r) ++ map sample_error r.samples

  unfoldable pub report_with :
      ℕ → Option ℕ → ℕ → Tally → Option (List Printed) → Option (List Printed)
  unfolding first_part last_part
  report_with total want took r none = none
  report_with total want took r (some latencies) =
      some (first_part total took r ++ (latencies ++ last_part want r))

  -- `report` on the results and the time that the run took.
  unfoldable pub report : ℕ → Option ℕ → ℕ → Tally → Option (List Printed)
  unfolding report_with latencies_part
  report total want took r = report_with total want took r (latencies_part r.latencies)
