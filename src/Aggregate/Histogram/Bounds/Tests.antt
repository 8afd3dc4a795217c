-- ===== src/Aggregate/Histogram/Bounds/Tests.antt =====
-- histogram.go: three buckets, and a bucket whose midpoint is not finite.
use otelcontext.Base.{ℕ, ◌+◌, ◌≡◌, refl, true, false, [], ◌∷◌, arith, some, ltb, Float64}
use otelcontext.Base.Samples.{whole_float}
use otelcontext.Aggregate.Sketch.{two_31, new_sketch}
use otelcontext.Aggregate.Histogram.{
  HistogramFold, fold_scalars, folded, validate_scalars, total_from,
}
use otelcontext.Aggregate.Histogram.Bounds.{
  HistogramInput, fold_histogram, validate_bounds, ascending, agrees, fold_bounds, fold_buckets,
  observe_n, mid_of, lower_of, bucket_midpoint, admits_negative, non_negative, last_of, finished,
}
use otelcontext.Aggregate.Histogram.Bounds.Conserving.{fold_histogram_conserves, lost_counts}

abbrev level : ℕ → ℕ → ℕ
level value scale = two_31 + value

-- Floats that stop below 100.
abbrev small_float : Float64
small_float = record whole_float { finite_f = λ x. ltb x 100 }

-- Two values above 50 up to 60, of which the midpoint is out of range, and one above 60.
abbrev point : HistogramInput small_float level
point = record {
  common = record {
    count = 3;
    sum = 0;
    has_sum = false;
    min = 51;
    has_min = true;
    max = 0;
    has_max = false;
  };
  bounds = 60 ∷ [];
  bucket_counts = 2 ∷ 1 ∷ [];
}

abbrev point_fold : HistogramFold small_float
point_fold = record (fold_scalars small_float point.common) {
  sketch = some (new_sketch 4);
  source_bucket_error = 0;
  unbounded_tail = true;
  unbounded_tail_bound = 60;
  unbounded_tail_count = 1;
}

point_folded : fold_histogram small_float level point ≡ folded point_fold
unfolding fold_histogram validate_bounds ascending agrees fold_bounds fold_buckets observe_n mid_of
    lower_of bucket_midpoint admits_negative non_negative last_of finished validate_scalars
    total_from fold_scalars
point_folded = refl

fold_histogram_conserves_example :
    0 + 1 + lost_counts small_float level point.common 0 point.bounds point.bucket_counts ≡ 3
unfolding new_sketch
fold_histogram_conserves_example =
    fold_histogram_conserves small_float level point point_fold (new_sketch 4)
      (omega arith, (omega arith, tt)) point_folded refl

-- Two of the three observations are lost.
two_lost : lost_counts small_float level point.common 0 point.bounds point.bucket_counts ≡ 2
unfolding lost_counts mid_of lower_of bucket_midpoint admits_negative
two_lost = refl
