-- ===== src/Aggregate/Histogram.antt =====
-- internal/aggregate/histogram.go: the fold of an exponential histogram point into a sketch.
-- An `int32` bucket offset stands for the number 2^31 above it, as in the sketch. The identity of a
-- point (tenant, names, times, attributes) is left out: the fold does not read it.
pub mod Buckets
pub mod Bounds
pub mod Totals
pub mod Landing
pub mod Folding
pub mod Exact
mod Tests
use otelcontext.Base.{
  ℕ, ◌+◌, ◌-◌, ◌%◌, ◌^◌, Bool, true, false, not, ◌&&◌, ◌||◌, Option, none, some, List, [], ◌∷◌, ltb,
  leb, ◌==◌, if◌then◌else◌, length, ℤ, pos, negsuc, Float64,
}
use otelcontext.Aggregate.Sketch.{
  Sketch, new_sketch, two_32, shifted, downscale, observe_bucket, observe_zero,
}

abbrev pub sketch_default_scale : ℕ
sketch_default_scale = 4

-- `ExpHistogramMinScale` to `ExpHistogramMaxScale`
unfoldable pub known_scale : ℤ → Bool
known_scale (pos n) = leb n 20
known_scale (negsuc n) = ltb n 10

pub data SketchDropReason : Type 0 where
  drop_none negative_observations scale_out_of_range no_finite_boundaries : SketchDropReason

pub record ExpBuckets : Type 0 where
  pub offset : ℕ
  pub counts : List ℕ

-- The loop of `total`, which notices the wrap of `uint64`.
unfoldable pub total_from : ℕ → List ℕ → Option ℕ
total_from sum [] = some sum
total_from sum (c ∷ cs) =
    let next = (sum + c) % 2 ^ 64 in
    let rest = total_from next cs in if ltb next sum then none else rest

unfoldable pub bucket_total : ExpBuckets → Option ℕ
bucket_total b = total_from 0 b.counts

abbrev pub max_exp_buckets : ℕ
max_exp_buckets = 65536

unfoldable pub validate_exp_buckets : ExpBuckets → Bool
validate_exp_buckets b =
    leb (length b.counts) max_exp_buckets && ltb (b.offset + length b.counts) two_32

-- `in.Positive.Offset + int32(i)`, shifted.
unfoldable pub bucket_index : ℕ → ℕ → ℕ → ℕ
bucket_index shift offset i =
    let idx = (offset + i) % two_32 in if ltb 0 shift then shifted shift idx else idx

-- The loop over the positive buckets from bucket `i` on; `none` is a panic of the sketch.
unfoldable pub observe_buckets : ℕ → ℕ → ℕ → List ℕ → Sketch → Option Sketch
observe_buckets shift offset i [] s = some s
observe_buckets shift offset i (c ∷ cs) s =
    let skipped = observe_buckets shift offset (i + 1) cs s in
    if c == 0 then skipped else elim (observe_bucket s (bucket_index shift offset i) c) [
      | none ↦ none
      | some t ↦ observe_buckets shift offset (i + 1) cs t
    ]

-- The shift of the indexes and the sketch at the scale that the buckets land in.
unfoldable pub index_shift : ℕ → ℕ
index_shift scale = scale - sketch_default_scale

unfoldable pub target_sketch : ℕ → Sketch
target_sketch scale =
    if ltb scale sketch_default_scale
    then downscale (new_sketch sketch_default_scale) scale
    else new_sketch sketch_default_scale

module _ (fl : Float64) where
  open fl use {F, zero_f, ltb_f, finite_f}

  -- The scalars of `HistogramCommon`.
  pub record HistogramCommon : Type 0 where
    pub count : ℕ
    pub sum : F
    pub has_sum : Bool
    pub min : F
    pub has_min : Bool
    pub max : F
    pub has_max : Bool

  pub record ExponentialHistogramInput : Type 0 where
    pub common : HistogramCommon
    pub scale : ℤ
    pub zero_count : ℕ
    pub positive : ExpBuckets
    pub negative : ExpBuckets

  pub record HistogramFold : Type 0 where
    pub sketch : Option Sketch
    pub scalars : HistogramCommon
    pub percentiles_unavailable : Bool
    pub drop_reason : SketchDropReason
    pub source_bucket_error : F
    pub unbounded_tail : Bool
    pub unbounded_tail_bound : F
    pub unbounded_tail_count : ℕ

  -- What a fold returns: a fold, `ErrHistogramMalformed`, or a panic.
  pub data FoldResult : Type 0 where
    folded : HistogramFold → FoldResult
    malformed panicked : FoldResult

  unfoldable pub fold_scalars : HistogramCommon → HistogramFold
  fold_scalars c = record {
    sketch = none;
    scalars = c;
    percentiles_unavailable = false;
    drop_reason = drop_none;
    source_bucket_error = zero_f;
    unbounded_tail = false;
    unbounded_tail_bound = zero_f;
    unbounded_tail_count = 0;
  }

  unfoldable pub scalars_only : HistogramFold → SketchDropReason → HistogramFold
  scalars_only f reason = record f {
    sketch = none;
    percentiles_unavailable = true;
    drop_reason = reason;
  }

  unfoldable pub validate_scalars : HistogramCommon → Bool
  validate_scalars c =
      (not c.has_sum || finite_f c.sum)
      && (not c.has_min || finite_f c.min)
      && (not c.has_max || finite_f c.max)
      && not (c.has_min && c.has_max && ltb_f c.max c.min)

  -- The sketch of a point whose scale is not negative.
  unfoldable pub fold_sketch : ExponentialHistogramInput → ℕ → FoldResult
  fold_sketch p scale =
      elim (observe_buckets (index_shift scale) p.positive.offset 0 p.positive.counts
        (target_sketch scale)) [
          | none ↦ panicked
          | some s ↦
              folded
                (record (fold_scalars p.common) { sketch = some (observe_zero s p.zero_count) })
        ]

  unfoldable pub fold_scale : ExponentialHistogramInput → ℤ → FoldResult
  fold_scale p (negsuc n) = folded (scalars_only (fold_scalars p.common) scale_out_of_range)
  fold_scale p (pos n) = fold_sketch p n

  -- The test of the count on the bucket totals, and what follows it.
  unfoldable pub fold_totals : ExponentialHistogramInput → ℕ → ℕ → FoldResult
  fold_totals p pos_total neg_total =
      let observed = (p.zero_count + pos_total + neg_total) % 2 ^ 64 in
      if ltb observed pos_total || not (p.common.count == observed)
      then malformed
      else if ltb 0 neg_total
      then folded (scalars_only (fold_scalars p.common) negative_observations)
      else fold_scale p p.scale

  unfoldable pub fold_counts : ExponentialHistogramInput → Option ℕ → Option ℕ → FoldResult
  fold_counts p (some pos_total) (some neg_total) = fold_totals p pos_total neg_total
  fold_counts p none neg_total = malformed
  fold_counts p (some pos_total) none = malformed

  -- `FoldExponentialHistogram`
  unfoldable pub fold_exponential_histogram : ExponentialHistogramInput → FoldResult
  fold_exponential_histogram p =
      if not (validate_scalars p.common) || not (known_scale p.scale)
      then malformed
      else if not (validate_exp_buckets p.positive) || not (validate_exp_buckets p.negative)
      then malformed
      else fold_counts p (bucket_total p.positive) (bucket_total p.negative)
