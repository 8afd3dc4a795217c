-- ===== src/Aggregate/Histogram/Tests.antt =====
-- histogram.go: a point of a finer scale with three buckets, and one whose counts wrap.
use otelcontext.Base.{ℕ, ◌+◌, ◌-◌, ◌≡◌, refl, true, some, [], ◌∷◌, arith, pos}
use otelcontext.Base.Samples.{whole_float}
use otelcontext.Aggregate.Sketch.{Sketch, two_31}
use otelcontext.Aggregate.Sketch.Windows.{at_or_below}
use otelcontext.Aggregate.Sketch.Counts.{observed, highest}
use otelcontext.Aggregate.Histogram.{
  ExponentialHistogramInput, HistogramCommon, validate_scalars, validate_exp_buckets,
  fold_exponential_histogram, folded, fold_scalars,
}
use otelcontext.Aggregate.Histogram.Landing.{landing, landings}
use otelcontext.Aggregate.Histogram.Totals.{counts_sum}
use otelcontext.Aggregate.Histogram.Folding.{WellFormed, fold_keeps_counts}
use otelcontext.Aggregate.Histogram.Exact.{fold_exact}

abbrev scalars : ℕ → HistogramCommon whole_float
scalars n = record {
  count = n;
  sum = 40;
  has_sum = true;
  min = 1;
  has_min = true;
  max = 9;
  has_max = true;
}

-- Buckets -1, 0 and 1 of scale 5, the middle one empty.
abbrev point : ExponentialHistogramInput whole_float
point = record {
  common = scalars 9;
  scale = pos 5;
  zero_count = 2;
  positive = record { offset = two_31 - 1; counts = 3 ∷ 0 ∷ 4 ∷ [] };
  negative = record { offset = two_31; counts = [] };
}

point-WellFormed : WellFormed whole_float point 5
unfolding validate_scalars validate_exp_buckets counts_sum
point-WellFormed = record {
  scalars = refl;
  scale = refl;
  known = omega arith;
  positive = refl;
  negative = refl;
  none_negative = refl;
  count = refl;
  word = omega arith;
  fits = omega arith;
}

fold_keeps_counts_example :
    (s : Sketch) × (fold_exponential_histogram whole_float point
      ≡ folded (record (fold_scalars whole_float (scalars 9)) { sketch = some s }))
    × (s.scale ≡ 4)
    × (s.count ≡ 9)
    × (s.zero_count ≡ 2)
    × (s.bin_total ≡ 7)
    × (at_or_below s (two_31 - 1) ≡ 3)
unfolding landings landing highest counts_sum observed
fold_keeps_counts_example =
    fold_keeps_counts whole_float point 5 (two_31 - 1) point-WellFormed
      ((omega arith, omega arith, omega arith), ((omega arith, omega arith, omega arith), tt))
      (omega arith)

point_folded :
    (s : Sketch) × (fold_exponential_histogram whole_float point
      ≡ folded (record (fold_scalars whole_float (scalars 9)) { sketch = some s }))
unfolding landings landing highest
point_folded =
    let (s, run, scaled, counted, zeros, bins, below) =
      fold_keeps_counts whole_float point 5 (two_31 - 1) point-WellFormed
        ((omega arith, omega arith, omega arith), ((omega arith, omega arith, omega arith), tt))
        (omega arith) in
    (s, run)

fold_exact_example :
    (point_folded.0.count ≡ 9)
    × (point_folded.0.zero_count ≡ 2)
    × (9 ≡ 2 + counts_sum point.positive.counts)
    × (counts_sum point.negative.counts ≡ 0)
unfolding fold_scalars
fold_exact_example =
    fold_exact whole_float point
      (record (fold_scalars whole_float (scalars 9)) { sketch = some point_folded.0 })
      point_folded.0 (omega arith) (omega arith, (omega arith, (omega arith, tt))) tt point_folded.1
      refl
