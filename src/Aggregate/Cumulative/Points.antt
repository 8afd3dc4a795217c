-- ===== src/Aggregate/Cumulative/Points.antt =====
-- temporality.go: what a point leaves in the baseline that it meets, and what it credits.
use otelcontext.Base.{
  ℕ, ◌+◌, ◌≡◌, ◌∙◌, ◌≢◌, ◌⊎◌, inl, inr, true, false, some, arith, Float64, Bool-cases, ltb, ◌==◌,
  if◌then◌else◌,
}
use otelcontext.Aggregate.Key.{SeriesKey}
use otelcontext.Aggregate.Tracker.{BaselineState, by_producer, state_of, mark_dirty, elapsed}
use otelcontext.Aggregate.Cumulative.{
  Point, Routed, stale_point, gap_point, progress_point, strand, strand_owed, settle, classify,
  baseline_at,
}
use otelcontext.Aggregate.Cumulative.Slots.{state_of-set_state_self, state_of-set_state_ne}

module _ (fl : Float64) where
  open fl use {F, zero_f, add_f, sub_f, ltb_f}

  -- The increase of a newer point over its baseline: a reset counts from zero.
  unfoldable pub increase : BaselineState fl → Point fl → F
  increase b p =
      if p.start_time == b.baseline.start_time
      then (if ltb_f p.value b.baseline.value then p.value else sub_f p.value b.baseline.value)
      else p.value

  unfoldable pub emitted : BaselineState fl → Point fl → F
  unfolding increase
  emitted b p = if ltb_f zero_f b.owed then add_f (increase b p) b.owed else increase b p

  -- The three ways in which a known baseline meets a point.
  pub data Meets (gap : ℕ) (b : BaselineState fl) (p : Point fl) : Type 0 where
    stale : ltb b.baseline.last_timestamp p.ts ≡ false → Meets gap b p
    late :
        ltb b.baseline.last_timestamp p.ts ≡ true
        → ltb gap (elapsed p.ts b.baseline.last_timestamp) ≡ true
        → Meets gap b p
    next :
        ltb b.baseline.last_timestamp p.ts ≡ true
        → ltb gap (elapsed p.ts b.baseline.last_timestamp) ≡ false
        → Meets gap b p

  pub meets : (gap : ℕ) (b : BaselineState fl) (p : Point fl) → Meets gap b p
  meets gap b p = elim (Bool-cases (ltb b.baseline.last_timestamp p.ts)) [
    | inr old ↦ stale old
    | inl new ↦ elim (Bool-cases (ltb gap (elapsed p.ts b.baseline.last_timestamp))) [
      | inl far ↦ late new far
      | inr near ↦ next new near
    ]
  ]

  module _ (r : Routed fl) (key : SeriesKey) (b : BaselineState fl) (p : Point fl) where
    pub delta-progress : (progress_point fl r key b p).1.delta ≡ emitted b p
    unfolding progress_point settle classify emitted
    delta-progress = ground arith

    pub progress-state :
        state_of fl (progress_point fl r key b p).0 key r.producer
        ≡ some (record {
          baseline = baseline_at fl p;
          pending = add_f b.pending (progress_point fl r key b p).1.delta;
          owed = strand_owed fl b;
        })
    unfolding progress_point state_of by_producer mark_dirty
    progress-state =
        state_of-set_state_self fl (settle fl b (classify fl r.tracker r.degraded b p)).0 key
          r.producer _

    pub gap-state :
        state_of fl (gap_point fl r key b p).0 key r.producer
        ≡ some (record b { baseline = baseline_at fl p; owed = strand_owed fl b })
    unfolding gap_point state_of by_producer mark_dirty
    gap-state = state_of-set_state_self fl (strand fl r.tracker b) key r.producer _

    pub stale-settled :
        ltb_f zero_f b.owed ≡ true
        → state_of fl (stale_point fl r key b).0 key r.producer
          ≡ some (record b { pending = add_f b.pending b.owed; owed = zero_f })
    unfolding stale_point state_of by_producer mark_dirty
    stale-settled h =
        rw (h, stale_point)
          (state_of-set_state_self fl (record r.tracker { stale = r.tracker.stale + 1 }) key
            r.producer _)

    pub stale-ignored :
        ltb_f zero_f b.owed ≡ false
        → state_of fl (stale_point fl r key b).0 key r.producer
          ≡ state_of fl r.tracker key r.producer
    unfolding stale_point state_of by_producer
    stale-ignored h = rw (h, stale_point)

    module _ (k : SeriesKey) (q : ℕ) (ne : (k ≢ key) ⊎ (q ≢ r.producer)) where
      pub progress-other :
          state_of fl (progress_point fl r key b p).0 k q ≡ state_of fl r.tracker k q
      unfolding progress_point state_of by_producer mark_dirty
      progress-other =
          let t = (settle fl b (classify fl r.tracker r.degraded b p)).0 in
          state_of-set_state_ne fl t key r.producer _ k q ne
          ∙ unfold settle classify in ground arith

      pub gap-other : state_of fl (gap_point fl r key b p).0 k q ≡ state_of fl r.tracker k q
      unfolding gap_point state_of by_producer mark_dirty
      gap-other =
          state_of-set_state_ne fl (strand fl r.tracker b) key r.producer _ k q ne
          ∙ unfold strand in ground arith

      pub stale-other : state_of fl (stale_point fl r key b).0 k q ≡ state_of fl r.tracker k q
      unfolding stale_point state_of by_producer mark_dirty
      stale-other = elim (Bool-cases (ltb_f zero_f b.owed)) [
        | inl h ↦
            rw (h, stale_point)
              (state_of-set_state_ne fl (record r.tracker { stale = r.tracker.stale + 1 }) key
                r.producer _ k q ne)
        | inr h ↦ rw (h, stale_point)
      ]
