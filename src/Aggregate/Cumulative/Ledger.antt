-- ===== src/Aggregate/Cumulative/Ledger.antt =====
-- temporality.go: `ObserveCumulative` on a series and producer that have a baseline.
use otelcontext.Base.{
  ℕ, ◌+◌, ◌≤◌, ◌≡◌, ◌∙◌, ◌≢◌, ◌⊎◌, inl, inr, true, false, some, arith, bit, Float64, Option-cases,
  Bool-cases, ltb, pos_part,
}
use otelcontext.Aggregate.Key.{SeriesKey}
use otelcontext.Aggregate.Tracker.{Tracker, BaselineState, CumulativeOutcome, state_of}
use otelcontext.Aggregate.Cumulative.{
  Point, Routed, observe, known_point, stale_point, gap_point, progress_point, seed_point, settle,
  classify,
}
use otelcontext.Aggregate.Cumulative.Slots.{routed, routed-state}
use otelcontext.Aggregate.Cumulative.Points.{
  meets, stale, late, next, progress-state, gap-state, stale-settled, stale-ignored, progress-other,
  gap-other, stale-other,
}

module _ (fl : Float64) where
  module _ (r : Routed fl) (key : SeriesKey) (b : BaselineState fl) (p : Point fl) where
    abbrev pub gap_of : ℕ
    gap_of = pos_part r.tracker.cfg.gap_threshold

    -- A rule for what a known baseline does with a point.
    pub known_cases {ℓ} :
        (P : Tracker fl × CumulativeOutcome fl → Type ℓ)
        → (ltb b.baseline.last_timestamp p.ts ≡ false → P (stale_point fl r key b))
        → (ltb b.baseline.last_timestamp p.ts ≡ true → P (gap_point fl r key b p))
        → (ltb b.baseline.last_timestamp p.ts ≡ true → P (progress_point fl r key b p))
        → P (known_point fl r key b p)
    unfolding known_point
    known_cases P old far near = elim (meets fl gap_of b p) [
      | stale e ↦ rw e (old e)
      | late e f ↦ rw (e, f) (far e)
      | next e f ↦ rw (e, f) (near e)
    ]

    -- A record of another series or producer is left alone.
    known-frame :
        (k : SeriesKey) (q : ℕ)
        → (k ≢ key) ⊎ (q ≢ r.producer)
        → state_of fl (known_point fl r key b p).0 k q ≡ state_of fl r.tracker k q
    known-frame k q ne =
        known_cases (λ o. state_of fl o.0 k q ≡ state_of fl r.tracker k q)
          (λ _. stale-other fl r key b p k q ne) (λ _. gap-other fl r key b p k q ne)
          (λ _. progress-other fl r key b p k q ne)

    known-time :
        state_of fl r.tracker key r.producer ≡ some b
        → (b' : BaselineState fl) × (state_of fl (known_point fl r key b p).0 key r.producer
            ≡ some b')
          × (b.baseline.last_timestamp ≤ b'.baseline.last_timestamp)
    known-time h =
        known_cases
          (λ o.
            (b' : BaselineState fl) × (state_of fl o.0 key r.producer ≡ some b')
            × (b.baseline.last_timestamp ≤ b'.baseline.last_timestamp))
          (λ _. kept) (λ new. (_, gap-state fl r key b p, ground arith))
          (λ new. (_, progress-state fl r key b p, ground arith))
      where
        kept :
            (b' : BaselineState fl) × (state_of fl (stale_point fl r key b).0 key r.producer
              ≡ some b')
            × (b.baseline.last_timestamp ≤ b'.baseline.last_timestamp)
        kept = elim (Bool-cases (fl.ltb_f fl.zero_f b.owed)) [
          | inl e ↦ (_, stale-settled fl r key b p e, omega arith)
          | inr e ↦ (b, stale-ignored fl r key b p e ∙ h, omega arith)
        ]

    pub known-flags :
        let o = (known_point fl r key b p).1 in
        bit o.ignored + bit o.seeded + bit o.gap + bit o.reset ≤ 1
    unfolding known_point stale_point gap_point progress_point settle classify
    known-flags = ground arith

  module _ (t : Tracker fl) (key : SeriesKey) (producer : ℕ) (p : Point fl) where
    abbrev pub slot : Routed fl
    slot = routed fl t key producer

    pub observe-known :
        (b : BaselineState fl)
        → state_of fl t key slot.producer ≡ some b
        → observe fl t key producer p ≡ known_point fl slot key b p
    unfolding observe
    observe-known b h =
        let e = routed-state fl t key key producer slot.producer ∙ h in rw (e, observe)

    -- A point never moves the last timestamp of the baseline that it meets backwards, and leaves
    -- the record of every other series or producer alone.
    pub observe_local :
        (b : BaselineState fl) (k : SeriesKey) (q : ℕ)
        → state_of fl t key slot.producer ≡ some b
        → (k ≢ key) ⊎ (q ≢ slot.producer)
        → ((b' : BaselineState fl) × (state_of fl (observe fl t key producer p).0 key slot.producer
              ≡ some b')
            × (b.baseline.last_timestamp ≤ b'.baseline.last_timestamp))
          × (state_of fl (observe fl t key producer p).0 k q ≡ state_of fl t k q)
    observe_local b k q h ne = rw (observe-known b h) (
      known-time slot key b p (routed-state fl t key key producer slot.producer ∙ h),
      known-frame slot key b p k q ne ∙ routed-state fl t key k producer q,
    )

    -- At most one of ignored, seeded, gap and reset describes a point.
    pub observe_flags :
        let o = (observe fl t key producer p).1 in
        bit o.ignored + bit o.seeded + bit o.gap + bit o.reset ≤ 1
    unfolding observe seed_point
    observe_flags = elim (Option-cases (state_of fl slot.tracker key slot.producer)) [
      | inl e ↦ rw (e, observe) (omega arith)
      | inr (b, e) ↦ rw (e, observe) (known-flags slot key b p)
    ]
