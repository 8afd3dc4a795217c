-- ===== src/Aggregate/Histogram/Exact.antt =====
-- histogram.go: the counts of an accepted exponential histogram point.
use otelcontext.Base.{
  ℕ, ◌+◌, ◌%◌, ◌^◌, ◌≤◌, ◌<◌, ◌≡◌, refl, ◌∙◌, ap, inl, inr, true, false, not, ◌||◌, Option, none,
  some, [], ◌∷◌, arith, ltb, ◌==◌, Bool-cases, Option-cases, subst, All, ℤ, pos, negsuc, Float64,
}
use otelcontext.Aggregate.Sketch.{Sketch}
use otelcontext.Aggregate.Histogram.{
  ExpBuckets, total_from, bucket_total, validate_exp_buckets, known_scale, index_shift,
  target_sketch, ExponentialHistogramInput, HistogramFold, FoldResult, folded, malformed, panicked,
  fold_scalars, scalars_only, validate_scalars, fold_sketch, fold_scale, fold_totals, fold_counts,
  fold_exponential_histogram, negative_observations, observe_buckets,
}
use otelcontext.Aggregate.Histogram.Totals.{
  counts_sum, Word, total_from_lem, total_from-exact, Counted, observe_buckets-Counted,
  target_sketch-fresh, observe_zero-counts,
}

module _ (fl : Float64) where
  -- What a sketch of a point has to count.
  Exact : ExponentialHistogramInput fl → Option Sketch → Type 0
  Exact p none = Unit
  Exact p (some s) =
      (s.count ≡ p.common.count)
      × (s.zero_count ≡ p.zero_count)
      × (p.common.count ≡ p.zero_count + counts_sum p.positive.counts)
      × (counts_sum p.negative.counts ≡ 0)

  Sound : ExponentialHistogramInput fl → FoldResult fl → Type 0
  Sound p (folded f) = Exact p f.sketch
  Sound p malformed = Unit
  Sound p panicked = Unit

  fold_scale-Sound :
      (p : ExponentialHistogramInput fl) (scale : ℤ)
      → p.common.count ≡ p.zero_count + counts_sum p.positive.counts
      → counts_sum p.negative.counts ≡ 0
      → Sound p (fold_scale fl p scale)
  unfolding fold_scale fold_sketch Sound Exact scalars_only fold_scalars Counted
  fold_scale-Sound p (negsuc n) h k = tt
  fold_scale-Sound p (pos n) h k =
      elim (Option-cases
        (observe_buckets (index_shift n) p.positive.offset 0 p.positive.counts (target_sketch n))) [
          | inl e ↦ rw (e, fold_scale, fold_sketch, Sound) tt
          | inr (t, e) ↦
              let start = target_sketch n in
              let counted : Counted start (counts_sum p.positive.counts) (some t) =
                subst (Counted start (counts_sum p.positive.counts)) e (
                  observe_buckets-Counted (index_shift n) p.positive.offset 0 p.positive.counts
                    start) in
              let (count_0, zeros_0) = target_sketch-fresh n in
              let (count_z, zeros_z) = observe_zero-counts t p.zero_count in
              rw (e, fold_scale, fold_sketch, Sound)
                (
                  omega (arith, count_z, counted.0, count_0, h),
                  omega (arith, zeros_z, counted.1, zeros_0),
                  h,
                  k,
                )
        ]

  fold_totals-Sound :
      (p : ExponentialHistogramInput fl)
      → Word p.zero_count
      → Word (counts_sum p.positive.counts)
      → Sound p (fold_totals fl p (counts_sum p.positive.counts) (counts_sum p.negative.counts))
  unfolding fold_totals Sound Exact scalars_only fold_scalars
  fold_totals-Sound p z w =
      elim (Bool-cases (ltb observed pos_total || not (p.common.count == observed))) [
        | inl b ↦ rw b tt
        | inr b ↦ elim (Bool-cases (ltb 0 neg_total)) [
          | inl n ↦ rw (b, n) tt
          | inr n ↦
              let none_below : neg_total ≡ 0 = ground (arith, n) in
              let whole : p.common.count ≡ p.zero_count + pos_total =
                ground (arith, b, none_below, z, w) in
              rw (b, n) (fold_scale-Sound p p.scale whole none_below)
        ]
      ]
    where
      pos_total : ℕ
      pos_total = counts_sum p.positive.counts

      neg_total : ℕ
      neg_total = counts_sum p.negative.counts

      observed : ℕ
      observed = (p.zero_count + pos_total + neg_total) % 2 ^ 64

  -- The counts of a side are `uint64`.
  abbrev pub Words : ExpBuckets → Type 0
  Words b = All Word b.counts

  fold_counts-Sound :
      (p : ExponentialHistogramInput fl)
      → Word p.zero_count
      → Words p.positive
      → Words p.negative
      → Sound p (fold_counts fl p (bucket_total p.positive) (bucket_total p.negative))
  unfolding fold_counts bucket_total Sound
  fold_counts-Sound p z pos_words neg_words = elim (Option-cases (bucket_total p.positive)) [
    | inl e ↦ rw (e, Sound) tt
    | inr (n, e) ↦ elim (Option-cases (bucket_total p.negative)) [
      | inl d ↦ rw (e, d, Sound) tt
      | inr (m, d) ↦
          let (sum_n, word_n) = total_from-exact 0 n p.positive.counts (omega arith) pos_words e in
          let (sum_m, word_m) = total_from-exact 0 m p.negative.counts (omega arith) neg_words d in
          let pos_sum : n ≡ counts_sum p.positive.counts = omega (arith, sum_n) in
          let neg_sum : m ≡ counts_sum p.negative.counts = omega (arith, sum_m) in
          rw (e, d, fold_counts, pos_sum, neg_sum)
            (fold_totals-Sound p z (omega (arith, word_n, pos_sum)))
    ]
  ]

  fold-Sound :
      (p : ExponentialHistogramInput fl)
      → Word p.zero_count
      → Words p.positive
      → Words p.negative
      → Sound p (fold_exponential_histogram fl p)
  unfolding fold_exponential_histogram Sound
  fold-Sound p z pos_words neg_words =
      elim (Bool-cases (not (validate_scalars fl p.common) || not (known_scale p.scale))) [
        | inl a ↦ rw a tt
        | inr a ↦
            elim (Bool-cases
              (not (validate_exp_buckets p.positive) || not (validate_exp_buckets p.negative))) [
                | inl b ↦ rw (a, b) tt
                | inr b ↦ rw (a, b) (fold_counts-Sound p z pos_words neg_words)
              ]
      ]

  -- A point of `uint64` counts whose fold has a sketch, at whatever scale and offsets: the count of
  -- the sketch and that of the point are exactly the zero count plus the positive buckets, without
  -- a wrap, the zero counts agree, and no negative bucket holds anything.
  pub fold_exact :
      (p : ExponentialHistogramInput fl) (f : HistogramFold fl) (s : Sketch)
      → Word p.zero_count
      → Words p.positive
      → Words p.negative
      → fold_exponential_histogram fl p ≡ folded f
      → f.sketch ≡ some s
      → (s.count ≡ p.common.count)
        × (s.zero_count ≡ p.zero_count)
        × (p.common.count ≡ p.zero_count + counts_sum p.positive.counts)
        × (counts_sum p.negative.counts ≡ 0)
  unfolding Sound Exact
  fold_exact p f s z pos_words neg_words e has =
      let whole : Exact p f.sketch = subst (Sound p) e (fold-Sound p z pos_words neg_words) in
      subst (Exact p) has whole

  wrapped_totals :
      (p : ExponentialHistogramInput fl) (n : ℕ)
      → Word p.common.count
      → 0 < n
      → p.common.count + 2 ^ 64 ≡ p.zero_count + n
      → fold_totals fl p 0 n
        ≡ folded (scalars_only fl (fold_scalars fl p.common) negative_observations)
  unfolding fold_totals
  wrapped_totals p n w some_n count =
      let observed : (p.zero_count + 0 + n) % 2 ^ 64 ≡ p.common.count = omega (arith, count, w) in
      let agrees : (p.common.count == p.common.count) ≡ true = ground arith in
      let above : ltb p.common.count 0 ≡ false = ground arith in
      let has_negative : ltb 0 n ≡ true = ground (arith, some_n) in
      rw (observed, agrees, above, has_negative) refl

  -- The bug: with negative buckets the test on the count misses a wrap. A point with `z` values at
  -- zero and one negative bucket of `n`, which together exceed `uint64`, is accepted with the
  -- wrapped count, which is less than either.
  pub wrapped_count_accepted :
      (p : ExponentialHistogramInput fl) (n offset : ℕ)
      → validate_scalars fl p.common ≡ true
      → known_scale p.scale ≡ true
      → p.positive.counts ≡ []
      → p.positive.offset < 2 ^ 32
      → p.negative ≡ record { offset = offset; counts = n ∷ [] }
      → offset + 1 < 2 ^ 32
      → Word p.zero_count
      → Word n
      → 2 ^ 64 ≤ p.zero_count + n
      → p.common.count + 2 ^ 64 ≡ p.zero_count + n
      → (fold_exponential_histogram fl p
          ≡ folded (scalars_only fl (fold_scalars fl p.common) negative_observations))
        × (p.common.count < p.zero_count)
        × (p.common.count < n)
  unfolding fold_exponential_histogram fold_counts bucket_total total_from counts_sum
      validate_exp_buckets
  wrapped_count_accepted p n offset v scale none_pos low neg high z w over count =
      let pos_valid : validate_exp_buckets p.positive ≡ true =
        rw (none_pos, validate_exp_buckets) (ground (arith, low)) in
      let neg_valid : validate_exp_buckets p.negative ≡ true =
        rw (neg, validate_exp_buckets) (ground (arith, high)) in
      let pos_total : bucket_total p.positive ≡ some 0 = rw (none_pos, bucket_total) refl in
      let neg_total : bucket_total p.negative ≡ some n =
        rw (neg, bucket_total)
          (total_from_lem 0 (n ∷ []) (omega (arith, w)) ∙ ap some (omega arith)) in
      let run = wrapped_totals p n (omega (arith, count, z)) (omega (arith, over, z)) count in
      (
        rw (v, scale, pos_valid, neg_valid, pos_total, neg_total, fold_counts) run,
        omega (arith, count, w),
        omega (arith, count, z),
      )
