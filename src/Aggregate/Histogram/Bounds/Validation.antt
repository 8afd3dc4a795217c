-- ===== src/Aggregate/Histogram/Bounds/Validation.antt =====
-- histogram.go: what the validation of explicit bounds says of the counts.
use otelcontext.Base.{
  ℕ, ◌+◌, ◌≡◌, refl, sym, ◌∙◌, subst, inl, inr, Bool, true, false, not, ◌&&◌, List, [], ◌∷◌, arith,
  ◌==◌, length, Bool-cases, Option-cases, All, Float64,
}
use otelcontext.Aggregate.Histogram.{total_from}
use otelcontext.Aggregate.Histogram.Totals.{counts_sum, Word, total_from-exact}
use otelcontext.Aggregate.Histogram.Bounds.{HistogramInput, ascending, agrees, validate_bounds}

module _ (fl : Float64) (index_of : fl.F → ℕ → ℕ) where
  open fl use {F, neg_inf_f}

  pub no_length : (cs : List ℕ) → length cs == 0 ≡ true → counts_sum cs ≡ 0
  unfolding counts_sum
  no_length [] h = refl
  no_length (c ∷ cs) h = absurd (ground (arith, h))

  agreed_sum :
      (cs : List ℕ) (n : ℕ)
      → All Word cs
      → agrees fl index_of (total_from 0 cs) n ≡ true
      → n ≡ counts_sum cs
  unfolding agrees
  agreed_sum cs n words h = elim (Option-cases (total_from 0 cs)) [
    | inl e ↦
        let clash : false ≡ true = subst (λ o. agrees fl index_of o n ≡ true) e h in absurd (cc)
    | inr (m, e) ↦
        let same : (m == n) ≡ true = subst (λ o. agrees fl index_of o n ≡ true) e h in
        let whole = total_from-exact 0 m cs (omega arith) words e in ground (arith, same, whole.0)
  ]

  pub validate_bounds-sum :
      (p : HistogramInput fl index_of)
      → All Word p.bucket_counts
      → validate_bounds fl index_of p ≡ true
      → p.common.count ≡ counts_sum p.bucket_counts
  unfolding validate_bounds
  validate_bounds-sum p words v =
      elim (Bool-cases (length p.bucket_counts == 0 && length p.bounds == 0)) [
        | inl a ↦
            let zero_count : (p.common.count == 0) ≡ true = sym (rw a refl) ∙ v in
            let no_counts : (length p.bucket_counts == 0) ≡ true = ground (arith, a) in
            ground (arith, zero_count, no_length p.bucket_counts no_counts)
        | inr a ↦ elim (Bool-cases (not (length p.bucket_counts == (length p.bounds + 1)))) [
          | inl b ↦ let clash : false ≡ true = sym (rw (a, b) refl) ∙ v in absurd (cc)
          | inr b ↦
              let both : (ascending fl index_of neg_inf_f p.bounds
                    && agrees fl index_of (total_from 0 p.bucket_counts) p.common.count)
                  ≡ true =
                sym (rw (a, b) refl) ∙ v in
              agreed_sum p.bucket_counts p.common.count words (second _ _ both)
        ]
      ]
    where
      second : (x y : Bool) → (x && y) ≡ true → y ≡ true
      second true y h = h
      second false y h = absurd (cc)
