-- ===== src/Aggregate/Histogram/Bounds/Conserving.antt =====
-- histogram.go: where the counts of a point with explicit bounds go.
use otelcontext.Base.{
  ℕ, ◌≤◌, ◌+◌, ◌≡◌, refl, sym, ap, subst, inl, inr, true, false, not, ◌&&◌, ◌||◌, Option, none,
  some, List, [], ◌∷◌, arith, ◌==◌, if◌then◌else◌, length, Bool-cases, Option-cases, All, Float64,
}
use otelcontext.Aggregate.Sketch.{Sketch, new_sketch, add}
use otelcontext.Aggregate.Histogram.{
  HistogramCommon, HistogramFold, FoldResult, folded, malformed, panicked, fold_scalars,
  scalars_only, validate_scalars, sketch_default_scale,
}
use otelcontext.Aggregate.Histogram.Buckets.{Kept, KeptBy, add-KeptBy}
use otelcontext.Aggregate.Histogram.Totals.{counts_sum, Word}
use otelcontext.Aggregate.Histogram.Bounds.{
  HistogramInput, observe_n, validate_bounds, mid_of, admits_negative, non_negative, lower_of,
  refused, finished, fold_buckets, last_of, fold_bounds, fold_histogram,
}
use otelcontext.Aggregate.Histogram.Bounds.Validation.{no_length, validate_bounds-sum}

module _ (fl : Float64) (index_of : fl.F → ℕ → ℕ) where
  open fl use {F, zero_f, ltb_f, leb_f, finite_f, neg_inf_f}

  -- What a bucket of the midpoint loses.
  abbrev pub lost : F → ℕ → ℕ
  lost mid n = if finite_f mid then 0 else n

  Placed : Sketch → ℕ → ℕ → Option Sketch → Type 0
  Placed s n gone none = Unit
  Placed s n gone (some t) = t.count + gone ≡ s.count + n

  none_lost : (s : Sketch) (mid : F) (n : ℕ) → n ≡ 0 → s.count + lost mid n ≡ s.count + n
  none_lost s mid n h = elim (Bool-cases (finite_f mid)) [
    | inl a ↦ rw a (omega (arith, h))
    | inr a ↦ rw a refl
  ]

  observe_n-Placed :
      (s : Sketch) (mid : F) (n : ℕ) → Placed s n (lost mid n) (observe_n fl index_of s mid n)
  unfolding observe_n Placed
  observe_n-Placed s mid n = elim (Bool-cases (n == 0)) [
    | inl z ↦
        let no_count : n ≡ 0 = ground (arith, z) in
        rw (z, observe_n, Placed) (none_lost s mid n no_count)
    | inr z ↦ elim (Bool-cases (finite_f mid)) [
      | inr a ↦ rw (z, a, Placed) (ap (λ m. s.count + m) (gone a))
      | inl a ↦ elim (Bool-cases (leb_f mid zero_f)) [
        | inl b ↦ rw (z, a, b, Placed) (omega (arith, kept a))
        | inr b ↦ elim (Option-cases (add start (index_of mid s.scale) n)) [
          | inl e ↦ rw (z, a, b, e, Placed) tt
          | inr (t, e) ↦
              let k : Kept start t =
                subst (KeptBy start) e (add-KeptBy start (index_of mid s.scale) n) in
              rw (z, a, b, e, Placed) (omega (arith, k.count, kept a))
        ]
      ]
    ]
  ]
    where
      start : Sketch
      start = record s { count = s.count + n }

      kept : finite_f mid ≡ true → lost mid n ≡ 0
      kept a = rw a refl

      gone : finite_f mid ≡ false → lost mid n ≡ n
      gone a = rw a refl

  -- What the buckets from the one above `prev` on lose.
  unfoldable pub lost_counts : HistogramCommon fl → F → List F → List ℕ → ℕ
  lost_counts c prev bounds [] = 0
  lost_counts c prev bounds (n ∷ []) = 0
  lost_counts c prev [] (n ∷ m ∷ ns) = 0
  lost_counts c prev (upper ∷ bounds) (n ∷ m ∷ ns) =
      lost (mid_of fl index_of c prev upper).0 n + lost_counts c upper bounds (m ∷ ns)

  Tallied : ℕ → ℕ → ℕ → Option Sketch → Type 0
  Tallied n gone tail none = Unit
  Tallied n gone tail (some s) = s.count + tail + gone ≡ n

  -- A sketch of the fold, with the tail and what is lost, counts `n`.
  Conserved : ℕ → ℕ → FoldResult fl → Type 0
  Conserved n gone (folded f) = Tallied n gone f.unbounded_tail_count f.sketch
  Conserved n gone malformed = Unit
  Conserved n gone panicked = Unit

  more_lost :
      (m k gone : ℕ) (r : FoldResult fl) → Conserved m gone r → Conserved (m + k) (k + gone) r
  unfolding Conserved Tallied
  more_lost m k gone malformed h = tt
  more_lost m k gone panicked h = tt
  more_lost m k gone (folded f) h = more_tallied f.unbounded_tail_count f.sketch h
    where
      more_tallied :
          (tail : ℕ) (o : Option Sketch) → Tallied m gone tail o → Tallied (m + k) (k + gone) tail o
      more_tallied tail none h = tt
      more_tallied tail (some s) h = omega (arith, h)

  fold_buckets-Conserved :
      (last prev : F) (bounds : List F) (cs : List ℕ) (f : HistogramFold fl) (s : Sketch) (n : ℕ)
      → n ≡ s.count + f.unbounded_tail_count + counts_sum cs
      → Conserved n
          (lost_counts f.scalars prev bounds cs)
          (fold_buckets fl index_of last prev bounds cs f s)
  unfolding fold_buckets lost_counts Conserved Tallied finished counts_sum refused scalars_only
      Placed
  fold_buckets-Conserved last prev bounds [] f s n h = omega (arith, h)
  fold_buckets-Conserved last prev bounds (c ∷ []) f s n h = elim (Bool-cases (c == 0)) [
    | inl z ↦ let no_count : c ≡ 0 = ground (arith, z) in rw z (omega (arith, h, no_count))
    | inr z ↦ rw z (omega (arith, h))
  ]
  fold_buckets-Conserved last prev [] (c ∷ d ∷ cs) f s n h = tt
  fold_buckets-Conserved last prev (upper ∷ bounds) (c ∷ d ∷ cs) f s n h =
      let r = mid_of fl index_of f.scalars prev upper in
      elim (Bool-cases (c == 0)) [
        | inl z ↦
            let no_count : c ≡ 0 = ground (arith, z) in
            let later = lost_counts f.scalars upper bounds (d ∷ cs) in
            let nothing : lost r.0 c + later ≡ later =
              omega (arith, none_lost s r.0 c no_count, no_count) in
            let rest =
              fold_buckets-Conserved last upper bounds (d ∷ cs) f s n
                (omega (arith, h, no_count)) in
            rw (z, nothing) rest
        | inr z ↦
            elim (Bool-cases (
              admits_negative fl index_of (lower_of fl index_of f.scalars prev) upper
              && (not (non_negative fl index_of f.scalars) || leb_f upper zero_f))) [
                | inl b ↦ rw (z, b) tt
                | inr b ↦ elim (Option-cases (observe_n fl index_of s r.0 c)) [
                  | inl e ↦ rw (z, b, e) tt
                  | inr (t, e) ↦
                      let placed : t.count + lost r.0 c ≡ s.count + c =
                        subst (Placed s c (lost r.0 c)) e (observe_n-Placed s r.0 c) in
                      let next = record f {
                        source_bucket_error =
                            if ltb_f f.source_bucket_error r.1 then r.1 else f.source_bucket_error;
                      } in
                      let m = t.count + f.unbounded_tail_count + counts_sum (d ∷ cs) in
                      let whole : m + lost r.0 c ≡ n = omega (arith, h, placed) in
                      let rest = fold_buckets-Conserved last upper bounds (d ∷ cs) next t m refl in
                      let all =
                        more_lost m (lost r.0 c) (lost_counts f.scalars upper bounds (d ∷ cs))
                          (fold_buckets fl index_of last upper bounds (d ∷ cs) next t) rest in
                      rw (z, b, e, (sym whole)) all
                ]
              ]
      ]

  lost_counts-le :
      (c : HistogramCommon fl) (prev : F) (bounds : List F) (cs : List ℕ)
      → lost_counts c prev bounds cs ≤ counts_sum cs
  unfolding lost_counts counts_sum
  lost_counts-le c prev bounds [] = omega arith
  lost_counts-le c prev bounds (n ∷ []) = omega arith
  lost_counts-le c prev [] (n ∷ m ∷ ns) = omega arith
  lost_counts-le c prev (upper ∷ bounds) (n ∷ m ∷ ns) =
      let rest = lost_counts-le c upper bounds (m ∷ ns) in
      elim (Bool-cases (finite_f (mid_of fl index_of c prev upper).0)) [
        | inl a ↦ rw a (omega (arith, rest))
        | inr a ↦ rw a (omega (arith, rest))
      ]

  fold_histogram-Conserved :
      (p : HistogramInput fl index_of)
      → All Word p.bucket_counts
      → Conserved p.common.count
          (lost_counts p.common neg_inf_f p.bounds p.bucket_counts)
          (fold_histogram fl index_of p)
  unfolding fold_histogram Conserved Tallied finished fold_scalars new_sketch fold_bounds
      scalars_only
  fold_histogram-Conserved p words = elim (Bool-cases (not (validate_scalars fl p.common))) [
    | inl a ↦ rw a tt
    | inr a ↦ elim (Bool-cases (validate_bounds fl index_of p)) [
      | inr b ↦ rw (a, b) tt
      | inl b ↦
          let sum = validate_bounds-sum fl index_of p words b in
          elim (Bool-cases (p.common.count == 0 || length p.bucket_counts == 0)) [
            | inl c ↦
                let few = lost_counts-le p.common neg_inf_f p.bounds p.bucket_counts in
                let nothing : counts_sum p.bucket_counts ≡ 0 =
                  empty_sum p.bucket_counts p.common.count sum c in
                rw (a, b, c) (omega (arith, few, nothing, sum))
            | inr c ↦ rw (a, b, c) (started p p.bounds sum)
          ]
    ]
  ]
    where
      empty_sum :
          (cs : List ℕ) (n : ℕ)
          → n ≡ counts_sum cs
          → (n == 0 || length cs == 0) ≡ true
          → counts_sum cs ≡ 0
      empty_sum cs n sum c = elim (Bool-cases (length cs == 0)) [
        | inl e ↦ no_length fl index_of cs e
        | inr e ↦ ground (arith, sum, c, e)
      ]

      started :
          (p : HistogramInput fl index_of) (bounds : List F)
          → p.common.count ≡ counts_sum p.bucket_counts
          → Conserved p.common.count
              (lost_counts p.common neg_inf_f bounds p.bucket_counts)
              (fold_bounds fl index_of p bounds)
      started p [] sum = tt
      started p (b ∷ bs) sum =
          fold_buckets-Conserved (last_of fl index_of b bs) neg_inf_f (b ∷ bs) p.bucket_counts
            (fold_scalars fl p.common) (new_sketch sketch_default_scale) p.common.count
            (omega (arith, sum))

  -- A point with explicit bounds and `uint64` counts whose fold has a sketch: the count of the
  -- sketch, that of the unbounded tail, and the counts of the buckets whose midpoint is not finite,
  -- which the sketch ignores, add up to the count of the point.
  pub fold_histogram_conserves :
      (p : HistogramInput fl index_of) (f : HistogramFold fl) (s : Sketch)
      → All Word p.bucket_counts
      → fold_histogram fl index_of p ≡ folded f
      → f.sketch ≡ some s
      → s.count + f.unbounded_tail_count + lost_counts p.common neg_inf_f p.bounds p.bucket_counts
        ≡ p.common.count
  unfolding Conserved Tallied
  fold_histogram_conserves p f s words e has =
      let gone = lost_counts p.common neg_inf_f p.bounds p.bucket_counts in
      let whole : Tallied p.common.count gone f.unbounded_tail_count f.sketch =
        subst (Conserved p.common.count gone) e (fold_histogram-Conserved p words) in
      subst (Tallied p.common.count gone f.unbounded_tail_count) has whole
