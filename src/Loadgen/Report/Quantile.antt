-- ===== src/Loadgen/Report/Quantile.antt =====
-- The percentiles of the report.
use homedns.Prelude.{
  ℕ, ◌-◌, ◌^◌, ◌≤◌, ◌<◌, ◌≡◌, refl, ap, List, [], ◌∷◌, Option, some, Memᴰ, arith, length, get_elem?,
  mem-get_elem?, get_elem?-some, All-mem, mem-append_left, mem-append_right, All, mem-All,
}
use homedns.Loadgen.{Tally}
use homedns.Loadgen.Report.{
  ReportLib, ReportLaws, Printed, latency, sort_durations, pct, round, latency_line, only_line,
  latencies_part, first_part, last_part, report_with, report,
}
use homedns.Loadgen.Report.Sort.{
  IsAscending, sort_durations-IsAscending, sort_durations-mem, length-sort_durations,
  get_elem?-IsAscending, last-greatest, mem-sort_durations,
}

-- The measured times that the report quotes, in their order, with the greatest time as the last.
pub record AreQuantiles (ds : List ℕ) (p50 p90 p99 most : ℕ) : Type 0 where
  pub measured : All (λ d. Memᴰ d ds) (p50 ∷ p90 ∷ p99 ∷ most ∷ [])
  pub half : p50 ≤ p90
  pub most_of : p90 ≤ p99
  pub all_but : p99 ≤ most
  pub greatest : All (λ d. d ≤ most) ds

-- The line on latencies, if there are any.
abbrev pub IsTimed : ReportLib → List ℕ → List Printed → Type 0
IsTimed lib [] out = Unit
IsTimed lib (d ∷ ds) out =
    (p50 : ℕ) × (p90 : ℕ) × (p99 : ℕ) × (most : ℕ) × AreQuantiles (d ∷ ds) p50 p90 p99 most
    × Memᴰ (latency (round lib p50) (round lib p90) (round lib p99) (round lib most)) out

module _ (lib : ReportLib) (laws : ReportLaws lib) where
  pct-some :
      (ds : List ℕ) (p : ℕ)
      → 0 < length ds
      → length ds ≤ 2 ^ 53
      → p ≤ 100
      → (d : ℕ) × (pct lib ds p ≡ some d)
  unfolding pct
  pct-some ds p some_ds few le =
      get_elem?-some ds (lib.scale (length ds - 1) p)
        (omega (arith, laws.scale_le (length ds - 1) p (omega (arith, few)) le))

  pct-le :
      (ds : List ℕ) (p q : ℕ) {a b : ℕ}
      → IsAscending ds
      → p ≤ q
      → pct lib ds p ≡ some a
      → pct lib ds q ≡ some b
      → a ≤ b
  unfolding pct
  pct-le ds p q up le f g =
      get_elem?-IsAscending ds (lib.scale (length ds - 1) p) (lib.scale (length ds - 1) q) up
        (laws.scale_mono (length ds - 1) p q le) f g

  pct-mem : (ds : List ℕ) (p : ℕ) {a : ℕ} → pct lib ds p ≡ some a → Memᴰ a ds
  unfolding pct
  pct-mem ds p e = mem-get_elem? ds _ e

  pct-measured : (ds : List ℕ) (p : ℕ) {a : ℕ} → pct lib (sort_durations ds) p ≡ some a → Memᴰ a ds
  pct-measured ds p e = sort_durations-mem ds (pct-mem (sort_durations ds) p e)

  latencies_part_lem :
      (d : ℕ) (ds : List ℕ) {p50 p90 p99 most : ℕ}
      → pct lib (sort_durations (d ∷ ds)) 50 ≡ some p50
      → pct lib (sort_durations (d ∷ ds)) 90 ≡ some p90
      → pct lib (sort_durations (d ∷ ds)) 99 ≡ some p99
      → get_elem? (sort_durations (d ∷ ds)) (length (sort_durations (d ∷ ds)) - 1) ≡ some most
      → latencies_part lib (d ∷ ds)
        ≡ some (latency (round lib p50) (round lib p90) (round lib p99) (round lib most) ∷ [])
  unfolding latencies_part latency_line only_line
  latencies_part_lem d ds {p50} {p90} {p99} {most} e50 e90 e99 e =
      let sorted : List ℕ = sort_durations (d ∷ ds) in
      let line : latency_line lib (pct lib sorted 50) (pct lib sorted 90) (pct lib sorted 99)
            (get_elem? sorted (length sorted - 1))
          ≡ latency_line lib (some p50) (some p90) (some p99) (some most) =
        cc (e50, e90, e99, e) in
      ap (only_line lib) line

  AreQuantiles-of_pct :
      (ds : List ℕ) {p50 p90 p99 most : ℕ}
      → length ds ≤ 2 ^ 53
      → pct lib (sort_durations ds) 50 ≡ some p50
      → pct lib (sort_durations ds) 90 ≡ some p90
      → pct lib (sort_durations ds) 99 ≡ some p99
      → get_elem? (sort_durations ds) (length (sort_durations ds) - 1) ≡ some most
      → AreQuantiles ds p50 p90 p99 most
  AreQuantiles-of_pct ds few e50 e90 e99 e =
      let up = sort_durations-IsAscending ds in
      let last = last-greatest (sort_durations ds) up e in
      record {
        measured = (
          pct-measured ds 50 e50,
          (
            pct-measured ds 90 e90,
            (
              pct-measured ds 99 e99,
              (sort_durations-mem ds (mem-get_elem? (sort_durations ds) _ e), tt),
            ),
          ),
        );
        half = pct-le (sort_durations ds) 50 90 up (omega arith) e50 e90;
        most_of = pct-le (sort_durations ds) 90 99 up (omega arith) e90 e99;
        all_but = mem-All (λ d. d ≤ _) last (pct-mem (sort_durations ds) 99 e99);
        greatest = All-mem _ ds (λ d m. mem-All (λ d. d ≤ _) last (mem-sort_durations ds m));
      }

  latencies_part-IsTimed :
      (ds : List ℕ)
      → length ds ≤ 2 ^ 53
      → (out : List Printed) × (latencies_part lib ds ≡ some out) × IsTimed lib ds out
  unfolding latencies_part
  latencies_part-IsTimed [] few = ([], refl, tt)
  latencies_part-IsTimed (d ∷ ds) few =
      let sorted : List ℕ = sort_durations (d ∷ ds) in
      let size = length-sort_durations (d ∷ ds) in
      let (p50, e50) =
        pct-some sorted 50 (omega (arith, size)) (omega (arith, size, few)) (omega arith) in
      let (p90, e90) =
        pct-some sorted 90 (omega (arith, size)) (omega (arith, size, few)) (omega arith) in
      let (p99, e99) =
        pct-some sorted 99 (omega (arith, size)) (omega (arith, size, few)) (omega arith) in
      let (most, e) = get_elem?-some sorted (length sorted - 1) (omega (arith, size)) in
      (
        latency (round lib p50) (round lib p90) (round lib p99) (round lib most) ∷ [],
        latencies_part_lem d ds e50 e90 e99 e,
        (p50, p90, p99, most, AreQuantiles-of_pct (d ∷ ds) few e50 e90 e99 e, Memᴰ.head refl),
      )

  IsTimed-imp :
      (ds : List ℕ) {out more : List Printed}
      → ((line : Printed) → Memᴰ line out → Memᴰ line more)
      → IsTimed lib ds out
      → IsTimed lib ds more
  IsTimed-imp [] f t = tt
  IsTimed-imp (d ∷ ds) f (p50, p90, p99, most, q, m) = (p50, p90, p99, most, q, f _ m)

  -- Up to 2 ^ 53 answers, `report` takes no percentile out of range. The times that it quotes, before
  -- it rounds them, are measured ones in ascending order, and the last is the greatest of all.
  pub report-IsTimed :
      (total : ℕ) (want : Option ℕ) (took : ℕ) (r : Tally)
      → length r.latencies ≤ 2 ^ 53
      → (out : List Printed) × (report lib total want took r ≡ some out)
        × IsTimed lib r.latencies out
  unfolding report report_with
  report-IsTimed total want took r few =
      let (out, e, timed) = latencies_part-IsTimed r.latencies few in
      (
        _,
        ap (report_with lib total want took r) e,
        IsTimed-imp r.latencies
            (λ line m.
              mem-append_right (first_part lib total took r)
                (mem-append_left (last_part lib want r) m))
            timed,
      )
