-- ===== src/Aggregate/Histogram/Bounds.antt =====
-- histogram.go: the fold of a histogram point with explicit bounds into a sketch.
-- `sketchIndex`, which rests on `math.Frexp` and `math.Log`, is the parameter `index_of`, from a
-- value and a scale to a biased `int32`.
pub mod Validation
pub mod Conserving
mod Tests
use otelcontext.Base.{
  ℕ, ◌+◌, Bool, true, false, not, ◌&&◌, ◌||◌, Option, none, some, List, [], ◌∷◌, ◌==◌,
  if◌then◌else◌, length, Float64,
}
use otelcontext.Aggregate.Sketch.{Sketch, new_sketch, add}
use otelcontext.Aggregate.Histogram.{
  HistogramCommon, HistogramFold, FoldResult, folded, malformed, panicked, fold_scalars,
  scalars_only, validate_scalars, total_from, negative_observations, no_finite_boundaries,
  sketch_default_scale,
}

module _ (fl : Float64) (index_of : fl.F → ℕ → ℕ) where
  open fl use {
    F, zero_f, one_f, add_f, sub_f, mul_f, div_f, ltb_f, leb_f, finite_f, neg_inf_f, sqrt_f,
  }

  pub record HistogramInput : Type 0 where
    pub common : HistogramCommon fl
    pub bounds : List F
    pub bucket_counts : List ℕ

  -- `Sketch.ObserveN`, without the sum.
  unfoldable pub observe_n : Sketch → F → ℕ → Option Sketch
  observe_n s value n =
      if n == 0 || not (finite_f value)
      then some s
      else if leb_f value zero_f
      then some (record s { count = s.count + n; zero_count = s.zero_count + n })
      else add (record s { count = s.count + n }) (index_of value s.scale) n

  -- The boundaries ascend strictly from the previous one on and are finite.
  unfoldable pub ascending : F → List F → Bool
  ascending prev [] = true
  ascending prev (b ∷ bs) =
      let rest = ascending b bs in if not (finite_f b) || leb_f b prev then false else rest

  unfoldable pub agrees : Option ℕ → ℕ → Bool
  agrees none count = false
  agrees (some total) count = total == count

  unfoldable pub validate_bounds : HistogramInput → Bool
  validate_bounds p =
      if length p.bucket_counts == 0 && length p.bounds == 0
      then p.common.count == 0
      else if not (length p.bucket_counts == (length p.bounds + 1))
      then false
      else ascending neg_inf_f p.bounds && agrees (total_from 0 p.bucket_counts) p.common.count

  -- `bucketMidpoint`: the value, and the relative error.
  unfoldable pub bucket_midpoint : F → F → F × F
  bucket_midpoint lower upper =
      if leb_f lower zero_f
      then (div_f upper (add_f one_f one_f), one_f)
      else (sqrt_f (mul_f lower upper), sub_f (sqrt_f (div_f upper lower)) one_f)

  -- The lower boundary of a bucket, raised to the minimum that the point reports.
  unfoldable pub lower_of : HistogramCommon fl → F → F
  lower_of c prev = if c.has_min && ltb_f prev c.min then c.min else prev

  unfoldable pub admits_negative : F → F → Bool
  admits_negative lower upper = ltb_f lower zero_f || leb_f upper zero_f

  unfoldable pub non_negative : HistogramCommon fl → Bool
  non_negative c = c.has_min && leb_f zero_f c.min

  unfoldable pub refused : HistogramFold fl → HistogramFold fl
  refused f = record (scalars_only fl f negative_observations) {
    unbounded_tail = false;
    unbounded_tail_bound = zero_f;
    unbounded_tail_count = 0;
  }

  -- The end of the loop: the sketch goes into the fold.
  unfoldable pub finished : HistogramFold fl → Sketch → FoldResult fl
  finished f s = folded (record f { sketch = some s })

  unfoldable pub mid_of : HistogramCommon fl → F → F → F × F
  mid_of c prev upper =
      let lower = lower_of c prev in
      bucket_midpoint (if admits_negative lower upper then zero_f else lower) upper

  -- The loop from the bucket above `prev` on; the last bucket is the unbounded one above `last`.
  unfoldable pub fold_buckets : F → F → List F → List ℕ → HistogramFold fl → Sketch → FoldResult fl
  fold_buckets last prev bounds [] f s = finished f s
  fold_buckets last prev bounds (c ∷ []) f s =
      if c == 0
      then finished f s
      else finished
          (record f {
            unbounded_tail = true;
            unbounded_tail_bound = last;
            unbounded_tail_count = f.unbounded_tail_count + c;
          })
          s
  fold_buckets last prev [] (c ∷ d ∷ cs) f s = panicked
  fold_buckets last prev (upper ∷ bounds) (c ∷ d ∷ cs) f s =
      let skipped = fold_buckets last upper bounds (d ∷ cs) f s in
      let r = mid_of f.scalars prev upper in
      if c == 0
      then skipped
      else if admits_negative (lower_of f.scalars prev) upper
          && (not (non_negative f.scalars) || leb_f upper zero_f)
      then folded (refused f)
      else elim (observe_n s r.0 c) [
        | none ↦ panicked
        | some t ↦
            fold_buckets last upper bounds (d ∷ cs)
              (record f {
                source_bucket_error =
                    if ltb_f f.source_bucket_error r.1 then r.1 else f.source_bucket_error;
              })
              t
      ]

  unfoldable pub last_of : F → List F → F
  last_of b [] = b
  last_of b (c ∷ cs) = last_of c cs

  unfoldable pub fold_bounds : HistogramInput → List F → FoldResult fl
  fold_bounds p [] = folded (scalars_only fl (fold_scalars fl p.common) no_finite_boundaries)
  fold_bounds p (b ∷ bs) =
      fold_buckets (last_of b bs) neg_inf_f (b ∷ bs) p.bucket_counts (fold_scalars fl p.common)
        (new_sketch sketch_default_scale)

  -- `FoldHistogram`
  unfoldable pub fold_histogram : HistogramInput → FoldResult fl
  fold_histogram p =
      if not (validate_scalars fl p.common)
      then malformed
      else if not (validate_bounds p)
      then malformed
      else if p.common.count == 0 || length p.bucket_counts == 0
      then finished (fold_scalars fl p.common) (new_sketch sketch_default_scale)
      else fold_bounds p p.bounds
