-- ===== src/Aggregate/Histogram/Folding.antt =====
-- histogram.go: the sketch of a well-formed exponential histogram point.
use otelcontext.Base.{
  ℕ, ◌%◌, ◌||◌, ◌+◌, ◌-◌, ◌^◌, ◌≤◌, ◌<◌, ◌≡◌, refl, ◌∙◌, ap, sym, subst, length, inl, inr, true,
  false, not, some, List, [], arith, ltb, leb, ◌==◌, Bool-cases, All, pos, Float64, min,
}
use otelcontext.Aggregate.Sketch.{
  Sketch, new_sketch, observe_zero, downscale, max_uint32, sketch_max_bins, two_31, two_32,
}
use otelcontext.Aggregate.Sketch.Sums.{sum_below-zero}
use otelcontext.Aggregate.Sketch.Windows.{at_or_below}
use otelcontext.Aggregate.Sketch.Counts.{Observation, total, observed, highest}
use otelcontext.Aggregate.Sketch.Runs.{Valid}
use otelcontext.Aggregate.Sketch.Order.{onto, observed-onto, total-onto, highest-onto}
use otelcontext.Aggregate.Histogram.{
  bucket_total, validate_exp_buckets, known_scale, index_shift, target_sketch, observe_buckets,
  sketch_default_scale, ExponentialHistogramInput, folded, fold_scalars, validate_scalars,
  fold_sketch, fold_scale, fold_totals, fold_counts, fold_exponential_histogram,
}
use otelcontext.Aggregate.Histogram.Buckets.{
  bucket_observations, Started, Looped, observe_buckets-Looped,
}
use otelcontext.Aggregate.Histogram.Landing.{landings, bucket_observations-landings}
use otelcontext.Aggregate.Histogram.Totals.{
  counts_sum, total_from_lem, total-bucket_observations, observe_zero-counts,
}

target_sketch_lem : (n : ℕ) → target_sketch n ≡ new_sketch (min n sketch_default_scale)
unfolding target_sketch downscale new_sketch
target_sketch_lem n = elim (Bool-cases (ltb n sketch_default_scale)) [
  | inl l ↦
      let coarser : leb sketch_default_scale n ≡ false = ground (arith, l) in
      let least : min n sketch_default_scale ≡ n = ground (arith, l) in rw (l, coarser, least) refl
  | inr l ↦
      let least : min n sketch_default_scale ≡ sketch_default_scale = ground (arith, l) in
      rw (l, least) refl
]

-- The bins at or below an index, and their total, are those of the observations.
Tallied : ℕ → List Observation → Sketch → Type 0
Tallied i os s = (s.bin_total ≡ total os) × (at_or_below s i ≡ observed i os)

Started-Tallied :
    (scale i : ℕ) (os : List Observation) (s : Sketch)
    → highest os < i + sketch_max_bins
    → Started scale os s
    → Tallied i os s
unfolding Tallied total observed new_sketch
Started-Tallied scale i os s above (inl (no_os, new)) =
    rw (no_os, new) (refl, sum_below-zero (λ p. 0) (i + 1 - two_31) (λ p l. refl))
Started-Tallied scale i os s above (inr (h, top)) = (h.totals, h.sums i (omega (arith, top, above)))

-- The loop over all buckets from an empty sketch.
Collected : ℕ → ℕ → ℕ → List ℕ → ℕ → Type 0
Collected scale shift offset cs i =
    (s : Sketch) × (observe_buckets shift offset 0 cs (new_sketch scale) ≡ some s)
    × (s.count ≡ counts_sum cs)
    × (s.zero_count ≡ 0)
    × (s.scale ≡ scale)
    × (s.bin_total ≡ counts_sum cs)
    × (at_or_below s i ≡ observed i (bucket_observations shift offset 0 cs))

observe_buckets-Collected :
    (scale shift offset : ℕ) (cs : List ℕ) (i : ℕ)
    → All Valid (bucket_observations shift offset 0 cs)
    → counts_sum cs ≤ max_uint32
    → highest (bucket_observations shift offset 0 cs) < i + sketch_max_bins
    → Collected scale shift offset cs i
unfolding Collected Looped Tallied total observed highest new_sketch
observe_buckets-Collected scale shift offset cs i v small above =
    let os = bucket_observations shift offset 0 cs in
    let size = total-bucket_observations shift offset 0 cs in
    let (s, done, started, counted, zeros, scaled) =
      observe_buckets-Looped scale shift offset 0 cs [] (new_sketch scale) v (inl (refl, refl))
        (omega (arith, small, size)) in
    let top : highest (onto [] os) < i + sketch_max_bins =
      omega (arith, highest-onto [] os, above) in
    let (bins, below) = Started-Tallied scale i (onto [] os) s top started in
    (
      s,
      done,
      omega (arith, counted, size),
      zeros,
      scaled,
      omega (arith, bins, total-onto [] os, size),
      omega (arith, below, observed-onto i [] os),
    )

observe_zero-bins :
    (s : Sketch) (n i : ℕ)
    → ((observe_zero s n).scale ≡ s.scale)
      × ((observe_zero s n).bin_total ≡ s.bin_total)
      × (at_or_below (observe_zero s n) i ≡ at_or_below s i)
unfolding observe_zero
observe_zero-bins s n i = elim (Bool-cases (n == 0)) [
  | inl z ↦ rw z (refl, refl, refl)
  | inr z ↦ rw z (refl, refl, refl)
]

module _ (fl : Float64) where
  -- A point of a scale that the sketch can represent, as the data model asks for it, whose positive
  -- buckets together fit a bin.
  pub record WellFormed (p : ExponentialHistogramInput fl) (k : ℕ) : Type 0 where
    pub scalars : validate_scalars fl p.common ≡ true
    pub scale : p.scale ≡ pos k
    pub known : k ≤ 20
    pub positive : validate_exp_buckets p.positive ≡ true
    pub negative : validate_exp_buckets p.negative ≡ true
    pub none_negative : counts_sum p.negative.counts ≡ 0
    pub count : p.common.count ≡ p.zero_count + counts_sum p.positive.counts
    pub word : p.common.count < 2 ^ 64
    pub fits : counts_sum p.positive.counts ≤ max_uint32

  point_landings :
      (p : ExponentialHistogramInput fl) (k : ℕ)
      → WellFormed p k
      → bucket_observations (index_shift k) p.positive.offset 0 p.positive.counts
        ≡ landings k p.positive.offset p.positive.counts
  unfolding validate_exp_buckets
  point_landings p k h =
      let b = p.positive in
      let first : b.offset + 0 ≡ b.offset = omega arith in
      let no_wrap : b.offset + 0 + length b.counts < two_32 = ground (arith, h.positive) in
      bucket_observations-landings k b.offset 0 b.counts no_wrap
      ∙ ap (λ j. landings k j b.counts) first

  reaches_sketch :
      (p : ExponentialHistogramInput fl) (k : ℕ)
      → WellFormed p k
      → fold_exponential_histogram fl p ≡ fold_sketch fl p k
  unfolding fold_exponential_histogram fold_counts fold_totals fold_scale bucket_total known_scale
  reaches_sketch p k h =
      let pos_total : bucket_total p.positive ≡ some (counts_sum p.positive.counts) =
        total_from_lem 0 p.positive.counts (omega (arith, h.count, h.word))
        ∙ ap some (omega arith) in
      let neg_total : bucket_total p.negative ≡ some 0 =
        total_from_lem 0 p.negative.counts (omega (arith, h.none_negative))
        ∙ ap some (omega (arith, h.none_negative)) in
      let agrees : (ltb ((p.zero_count + counts_sum p.positive.counts + 0) % 2 ^ 64)
              (counts_sum p.positive.counts)
            || not (p.common.count == ((p.zero_count + counts_sum p.positive.counts + 0) % 2 ^ 64)))
          ≡ false =
        ground (arith, h.count, h.word) in
      let in_range : known_scale p.scale ≡ true =
        rw (h.scale, known_scale) (ground (arith, h.known)) in
      let to_scale : fold_exponential_histogram fl p ≡ fold_scale fl p p.scale =
        rw
          (
            h.scalars, in_range, h.positive, h.negative, pos_total, neg_total, fold_counts,
            fold_totals, agrees,
          )
          refl in
      to_scale ∙ ap (λ z. fold_scale fl p z) h.scale

  -- A well-formed point of scale `k`, whose buckets land in the range of the sketch, is folded
  -- without a panic or an error. The sketch has the scale `k` or 4, whichever is less, the count
  -- and the zero count of the point, and as many observations in its bins as the point has in
  -- positive buckets. From 511 below the highest landing on, the bins at or below an index hold
  -- what the buckets held that land at or below it; bucket `i` of a scale above 4 lands in `⌊i /
  -- 2^(k - 4)⌋`.
  pub fold_keeps_counts :
      (p : ExponentialHistogramInput fl) (k i : ℕ)
      → WellFormed p k
      → All Valid (landings k p.positive.offset p.positive.counts)
      → highest (landings k p.positive.offset p.positive.counts) < i + sketch_max_bins
      → (s : Sketch) × (fold_exponential_histogram fl p
          ≡ folded (record (fold_scalars fl p.common) { sketch = some s }))
        × (s.scale ≡ min k sketch_default_scale)
        × (s.count ≡ p.common.count)
        × (s.zero_count ≡ p.zero_count)
        × (s.bin_total ≡ counts_sum p.positive.counts)
        × (at_or_below s i ≡ observed i (landings k p.positive.offset p.positive.counts))
  unfolding fold_sketch Collected
  fold_keeps_counts p k i h v above =
      let land = point_landings p k h in
      let (t, done, counted, zeros, scaled, bins, below) =
        observe_buckets-Collected (min k sketch_default_scale) (index_shift k) p.positive.offset
          p.positive.counts i (subst (All Valid) (sym land) v) h.fits
          (omega (arith, above, ap highest land)) in
      let (count_z, zeros_z) = observe_zero-counts t p.zero_count in
      let (scale_z, bins_z, below_z) = observe_zero-bins t p.zero_count i in
      (
        observe_zero t p.zero_count,
        reaches_sketch p k h ∙ (rw (fold_sketch, target_sketch_lem k, done) refl),
        scale_z ∙ scaled,
        omega (arith, count_z, counted, h.count),
        omega (arith, zeros_z, zeros),
        bins_z ∙ bins,
        below_z ∙ (below ∙ ap (observed i) land),
      )
