-- ===== src/Aggregate/Cumulative.antt =====
-- internal/aggregate/temporality.go: what one cumulative point does to the tracker, in the
-- evaluation order of the file's header, and the drain and rollback of dirty baselines.
pub mod Slots
pub mod Points
pub mod Ledger
pub mod Retry
mod Tests
use otelcontext.Base.{
  ℕ, ◌+◌, ◌-◌, Bool, true, false, ◌&&◌, not, Option, none, some, List, [], ◌∷◌, ltb, ◌==◌,
  if◌then◌else◌, pos_part, at_limit, Float64, ℕ_discrete,
}
use otelcontext.Base.Map.{Map, size, get, put, has}
use otelcontext.Aggregate.Key.{SeriesKey, key_discrete}
use otelcontext.Aggregate.Tracker.{
  Tracker, Baseline, BaselineState, BaselineRef, ref_discrete, DirtyBaseline, CumulativeOutcome,
  ResetReason, start_time_change, value_regression, degraded_producer, elapsed, by_producer,
  state_of, set_state, mark_dirty, fresh_state,
}

module _ (fl : Float64) where
  open fl use {F, zero_f, add_f, sub_f, ltb_f, eqb_f}

  abbrev pub no_outcome : Bool → CumulativeOutcome fl
  no_outcome degraded = record {
    delta = zero_f;
    ignored = false;
    seeded = false;
    gap = false;
    reset = false;
    reason = none;
    degraded = degraded;
    recovered = false;
  }

  -- `ObserveCumulative` up to the slot that it uses: the tracker, the producer, `out.Degraded`.
  pub record Routed : Type 0 where
    pub tracker : Tracker fl
    pub producer : ℕ
    pub degraded : Bool

  -- A series that is not there gets an empty map of producers.
  pub ensure_series : Tracker fl → SeriesKey → Tracker fl
  ensure_series t key =
      if has key_discrete key t.series
      then t
      else record t { series = put key_discrete key [] t.series }

  pub route : Tracker fl → SeriesKey → ℕ → Routed
  route t key producer =
      if has ℕ_discrete producer (by_producer fl t key)
      then record { tracker = t; producer = producer; degraded = false }
      else if at_limit (size (by_producer fl t key)) t.cfg.max_producers_per_series
          && not (producer == degraded_producer)
      then record {
        tracker = record t { producer_overflow = t.producer_overflow + 1 };
        producer = degraded_producer;
        degraded = true;
      }
      else if at_limit t.entries t.cfg.max_baselines && not (producer == degraded_producer)
      then record {
        tracker = record t { global_overflow = t.global_overflow + 1 };
        producer = degraded_producer;
        degraded = true;
      }
      else record { tracker = t; producer = producer; degraded = false }

  -- One cumulative point.
  pub record Point : Type 0 where
    pub start_time : ℕ
    pub ts : ℕ
    pub value : F

  abbrev pub baseline_at : Point → Baseline fl
  baseline_at p = record { start_time = p.start_time; last_timestamp = p.ts; value = p.value }

  pub seed_point : Routed → SeriesKey → Point → Tracker fl × CumulativeOutcome fl
  seed_point r key p =
      let t = r.tracker in
      let t' = record (set_state fl t key r.producer (fresh_state fl (baseline_at p))) {
        entries = t.entries + 1;
        seeded = t.seeded + 1;
      } in
      (mark_dirty fl t' key r.producer, record (no_outcome r.degraded) { seeded = true })

  pub stale_point : Routed → SeriesKey → BaselineState fl → Tracker fl × CumulativeOutcome fl
  stale_point r key b =
      let t = record r.tracker { stale = r.tracker.stale + 1 } in
      if ltb_f zero_f b.owed
      then (
        mark_dirty fl
            (record (set_state fl t key r.producer
              (record b { pending = add_f b.pending b.owed; owed = zero_f })) {
                owed = t.owed - 1;
                recovered = t.recovered + 1;
              })
            key r.producer,
        record (no_outcome r.degraded) { delta = b.owed; recovered = true },
      )
      else (t, record (no_outcome r.degraded) { ignored = true })

  -- An owed increase is dropped with the gap.
  pub strand : Tracker fl → BaselineState fl → Tracker fl
  strand t b =
      if ltb_f zero_f b.owed then record t { owed = t.owed - 1; stranded = t.stranded + 1 } else t

  abbrev pub strand_owed : BaselineState fl → F
  strand_owed b = if ltb_f zero_f b.owed then zero_f else b.owed

  pub gap_point : Routed → SeriesKey → BaselineState fl → Point → Tracker fl × CumulativeOutcome fl
  gap_point r key b p =
      let t = strand r.tracker b in
      let t' =
        set_state fl t key r.producer
          (record b { baseline = baseline_at p; owed = strand_owed b }) in
      (
        mark_dirty fl (record t' { gaps = t'.gaps + 1 }) key r.producer,
        record (no_outcome r.degraded) { gap = true },
      )

  -- Cases 2 to 4 of the evaluation order: the counters, and the outcome before the ledger.
  pub classify : Tracker fl → Bool → BaselineState fl → Point → Tracker fl × CumulativeOutcome fl
  classify t degraded b p =
      if p.start_time == b.baseline.start_time
      then (if ltb_f p.value b.baseline.value
          then (
            record t { resets_regression = t.resets_regression + 1 },
            record (no_outcome degraded) {
              delta = p.value;
              reset = true;
              reason = some value_regression;
            },
          )
          else (t, record (no_outcome degraded) { delta = sub_f p.value b.baseline.value }))
      else (
        record t { resets_start_time = t.resets_start_time + 1 },
        record (no_outcome degraded) {
          delta = p.value;
          reset = true;
          reason = some start_time_change;
        },
      )

  pub settle :
      BaselineState fl → Tracker fl × CumulativeOutcome fl → Tracker fl × CumulativeOutcome fl
  settle b (t, out) =
      if ltb_f zero_f b.owed
      then (
        record t { owed = t.owed - 1; recovered = t.recovered + 1 },
        record out { delta = add_f out.delta b.owed; recovered = true },
      )
      else (t, out)

  pub progress_point :
      Routed → SeriesKey → BaselineState fl → Point → Tracker fl × CumulativeOutcome fl
  progress_point r key b p =
      let (t, out) = settle b (classify r.tracker r.degraded b p) in
      (
        mark_dirty fl
            (set_state fl t key r.producer (record {
              baseline = baseline_at p;
              pending = add_f b.pending out.delta;
              owed = strand_owed b;
            }))
            key r.producer,
        out,
      )

  pub known_point :
      Routed → SeriesKey → BaselineState fl → Point → Tracker fl × CumulativeOutcome fl
  known_point r key b p =
      if ltb b.baseline.last_timestamp p.ts
      then (if ltb (pos_part r.tracker.cfg.gap_threshold) (elapsed p.ts b.baseline.last_timestamp)
          then gap_point r key b p
          else progress_point r key b p)
      else stale_point r key b

  pub observe : Tracker fl → SeriesKey → ℕ → Point → Tracker fl × CumulativeOutcome fl
  observe t key producer p =
      let r = route (ensure_series t key) key producer in
      elim (state_of fl r.tracker key r.producer) [
        | none ↦ seed_point r key p
        | some b ↦ known_point r key b p
      ]

  abbrev drained : BaselineRef → BaselineState fl → DirtyBaseline fl
  drained ref st = record {
    key = ref.key;
    producer = ref.producer;
    baseline = st.baseline;
    inflight = st.pending;
  }

  -- The loop of `DrainDirty`: a reference without a record is skipped.
  pub drain_refs : Map BaselineRef (Unit {0}) → Tracker fl → Tracker fl × List (DirtyBaseline fl)
  drain_refs [] t = (t, [])
  drain_refs ((ref, u) ∷ refs) t = elim (state_of fl t ref.key ref.producer) [
    | none ↦ drain_refs refs t
    | some st ↦
        let rest =
          drain_refs refs (set_state fl t ref.key ref.producer (record st { pending = zero_f })) in
        (rest.0, drained ref st ∷ rest.1)
  ]

  pub drain_dirty : Tracker fl → Tracker fl × List (DirtyBaseline fl)
  drain_dirty t = let (t', rows) = drain_refs t.dirty t in (record t' { dirty = [] }, rows)

  abbrev rollback_owed : Tracker fl → BaselineState fl → ℕ
  rollback_owed t st = if eqb_f st.owed zero_f then t.owed + 1 else t.owed

  -- One row of `Rollback`.
  pub give_back : Tracker fl → DirtyBaseline fl → Tracker fl
  give_back t row =
      let t' = mark_dirty fl t row.key row.producer in
      elim (state_of fl t row.key row.producer) [
        | none ↦ t'
        | some st ↦
            if eqb_f row.inflight zero_f
            then t'
            else record (set_state fl t' row.key row.producer
                (record st { owed = add_f st.owed row.inflight })) { owed = rollback_owed t st }
      ]

  pub rollback : List (DirtyBaseline fl) → Tracker fl → Tracker fl
  rollback [] t = t
  rollback (row ∷ rows) t = rollback rows (give_back t row)
