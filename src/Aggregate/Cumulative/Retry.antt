-- ===== src/Aggregate/Cumulative/Retry.antt =====
-- temporality.go: a group commit fails, and the client sends the same point again.
use otelcontext.Base.{
  ℕ, ◌≡◌, sym, ◌∙◌, ap, true, false, some, List, [], ◌∷◌, arith, Float64, ltb, pos_part,
}
use otelcontext.Base.Map.{put}
use otelcontext.Aggregate.Key.{SeriesKey}
use otelcontext.Aggregate.Tracker.{
  Tracker, Baseline, BaselineState, BaselineRef, DirtyBaseline, CumulativeOutcome, ref_discrete,
  state_of, set_state, mark_dirty, by_producer, elapsed,
}
use otelcontext.Aggregate.Cumulative.{
  Point, Routed, observe, known_point, stale_point, progress_point, settle, classify, baseline_at,
  strand_owed, drain_refs, drain_dirty, drained, give_back, rollback, route, ensure_series,
  rollback_owed,
}
use otelcontext.Aggregate.Cumulative.Slots.{routed, routed-own, gap-routed, state_of-set_state_self}
use otelcontext.Aggregate.Cumulative.Points.{increase, emitted, progress-state, delta-progress}
use otelcontext.Aggregate.Cumulative.Ledger.{observe-known}

module _ (fl : Float64) where
  open fl use {F, zero_f, add_f, ltb_f, eqb_f}

  -- What the retry needs of `float64`; each law holds of every float, infinities and NaN included.
  pub record FloatLaws : Type 0 where
    pub zero_not_pos : ltb_f zero_f zero_f ≡ false
    pub pos_not_zero : (a : F) → ltb_f zero_f a ≡ true → eqb_f a zero_f ≡ false
    pub zero_add : (a : F) → ltb_f zero_f a ≡ true → add_f zero_f a ≡ a

  abbrev ref_of : SeriesKey → ℕ → BaselineRef
  ref_of key producer = record { key = key; producer = producer }

  module _ (t : Tracker fl) (key : SeriesKey) (producer : ℕ) (st : BaselineState fl)
      (h : state_of fl t key producer ≡ some st) where
    drained_state : Tracker fl
    drained_state = set_state fl t key producer (record st { pending = zero_f })

    drain_refs_one :
        drain_refs fl ((ref_of key producer, tt) ∷ []) t
        ≡ (drained_state, drained fl (ref_of key producer) st ∷ [])
    unfolding drain_refs drained_state
    drain_refs_one = rw (h, drain_refs)

    -- The drain of the one dirty record.
    drain_one :
        t.dirty ≡ (ref_of key producer, tt) ∷ []
        → drain_dirty fl t
          ≡ (record drained_state { dirty = [] }, drained fl (ref_of key producer) st ∷ [])
    unfolding drain_dirty
    drain_one e =
        ap (λ d. let q = drain_refs fl d t in (record (q.0) { dirty = [] }, q.1)) e
        ∙ ap (λ (q : Tracker fl × List (DirtyBaseline fl)). (record (q.0) { dirty = [] }, q.1))
            drain_refs_one

    drained-state :
        state_of fl (record drained_state { dirty = [] }) key producer
        ≡ some (record st { pending = zero_f })
    unfolding state_of by_producer drained_state
    drained-state = state_of-set_state_self fl t key producer (record st { pending = zero_f })

    module _ (row : Baseline fl) (x : F) (ne : eqb_f x zero_f ≡ false) where
      abbrev back : DirtyBaseline fl
      back = record { key = key; producer = producer; baseline = row; inflight = x }

      give_back_lem :
          give_back fl t back
          ≡ record (set_state fl
              (mark_dirty fl t key producer)
              key
              producer
              (record st { owed = add_f st.owed x })) { owed = rollback_owed fl t st }
      unfolding give_back
      give_back_lem = rw (h, ne, give_back)

      -- A row that comes back is owed by its record.
      give_back-state :
          state_of fl (give_back fl t back) key producer
          ≡ some (record st { owed = add_f st.owed x })
      give_back-state = rw give_back_lem (
          unfold state_of by_producer in
          state_of-set_state_self fl (mark_dirty fl t key producer) key producer
            (record st { owed = add_f st.owed x }))

  module _ (r : Routed fl) (key : SeriesKey) (b : BaselineState fl) (p : Point fl) where
    dirty-progress :
        (progress_point fl r key b p).0.dirty
        ≡ put ref_discrete (ref_of key r.producer) tt r.tracker.dirty
    unfolding progress_point mark_dirty set_state settle classify
    dirty-progress = ground arith

    known_next :
        ltb b.baseline.last_timestamp p.ts ≡ true
        → ltb (pos_part r.tracker.cfg.gap_threshold) (elapsed p.ts b.baseline.last_timestamp)
          ≡ false
        → known_point fl r key b p ≡ progress_point fl r key b p
    unfolding known_point
    known_next new near = rw (new, near)

    known_stale :
        ltb b.baseline.last_timestamp p.ts ≡ false
        → ltb_f zero_f b.owed ≡ true
        → ((known_point fl r key b p).1.delta ≡ b.owed)
          × ((known_point fl r key b p).1.recovered ≡ true)
    unfolding known_point stale_point
    known_stale old h = ground arith

  dirty-routed :
      (t : Tracker fl) (key : SeriesKey) (producer : ℕ)
      → (routed fl t key producer).tracker.dirty ≡ t.dirty
  unfolding route ensure_series
  dirty-routed t key producer = ground arith

  module _ (laws : FloatLaws) (t : Tracker fl) (key : SeriesKey) (producer : ℕ)
      (b : BaselineState fl) (p : Point fl) (clean : t.dirty ≡ [])
      (known : state_of fl t key producer ≡ some b) (no_pending : b.pending ≡ zero_f)
      (no_owed : b.owed ≡ zero_f) (new : ltb b.baseline.last_timestamp p.ts ≡ true)
      (near : ltb (pos_part t.cfg.gap_threshold) (elapsed p.ts b.baseline.last_timestamp) ≡ false)
      (grows : ltb_f zero_f (increase fl b p) ≡ true) where
    abbrev slot : Routed fl
    slot = routed fl t key producer

    own : slot.producer ≡ producer
    own = (routed-own fl t key producer b known).0

    first : observe fl t key producer p ≡ progress_point fl slot key b p
    first =
        observe-known fl t key producer p b (rw own known)
        ∙ known_next slot key b p new (rw (gap-routed fl t key producer) near)

    handed_out : (progress_point fl slot key b p).1.delta ≡ increase fl b p
    unfolding emitted
    handed_out = ground (arith, delta-progress fl slot key b p, laws.zero_not_pos)

    -- What the record holds after the first point.
    held : BaselineState fl
    held = record { baseline = baseline_at fl p; pending = increase fl b p; owed = zero_f }

    abbrev t1 : Tracker fl
    t1 = (observe fl t key producer p).0

    held_eq :
        record {
          baseline = baseline_at fl p;
          pending = add_f b.pending (progress_point fl slot key b p).1.delta;
          owed = strand_owed fl b;
        }
        ≡ held
    unfolding held
    held_eq = ground (arith, handed_out, laws.zero_add (increase fl b p) grows, laws.zero_not_pos)

    first-state : state_of fl t1 key producer ≡ some held
    first-state =
        ap (λ (o : Tracker fl × CumulativeOutcome fl). state_of fl o.0 key producer) first
        ∙ ap (λ q. state_of fl (progress_point fl slot key b p).0 key q) (sym own)
        ∙ progress-state fl slot key b p
        ∙ ap some held_eq

    first-dirty : t1.dirty ≡ (ref_of key producer, tt) ∷ []
    unfolding put
    first-dirty =
        ap (λ (o : Tracker fl × CumulativeOutcome fl). o.0.dirty) first
        ∙ dirty-progress slot key b p
        ∙ ap (λ q. put ref_discrete (ref_of key q) tt slot.tracker.dirty) own
        ∙ ap (put ref_discrete (ref_of key producer) tt) (dirty-routed t key producer ∙ clean)

    -- The tracker after the drain, and after the rollback of what was drained.
    abbrev t2 : Tracker fl
    t2 = record (drained_state t1 key producer held first-state) { dirty = [] }

    abbrev t3 : Tracker fl
    t3 = rollback fl (drain_dirty fl t1).1 (drain_dirty fl t1).0

    abbrev owing : BaselineState fl
    owing = record {
      baseline = baseline_at fl p;
      pending = zero_f;
      owed = add_f zero_f (increase fl b p);
    }

    rolled_back-state : state_of fl t3 key producer ≡ some owing
    unfolding rollback held
    rolled_back-state = rw (drain_one t1 key producer held first-state first-dirty) (
        give_back-state t2 key producer (record held { pending = zero_f })
          (drained-state t1 key producer held first-state) (baseline_at fl p) (increase fl b p)
          (laws.pos_not_zero (increase fl b p) grows))

    again :
        ((observe fl t3 key producer p).1.delta ≡ owing.owed)
        × ((observe fl t3 key producer p).1.recovered ≡ true)
    again =
        let o = (routed-own fl t3 key producer owing rolled_back-state).0 in
        rw (observe-known fl t3 key producer p owing (rw o rolled_back-state)) (
          known_stale (routed fl t3 key producer) key owing p (ground arith)
            (rw (laws.zero_add (increase fl b p) grows) grows))

    -- A newer point within the gap threshold that grows a baseline with nothing pending or owed, on
    -- a tracker without dirty records, hands out its increase. If the group commit that carries it,
    -- and no other record, fails, and the client sends the very same point again, the increase is
    -- handed out again, as recovered, although the point is then stale. Of float arithmetic, it
    -- takes that 0 is not above 0, that a value above 0 is not 0, and that 0 added on the left of
    -- such a value changes nothing.
    pub retry_recovers :
        ((observe fl t key producer p).1.delta ≡ increase fl b p)
        × ((observe fl t3 key producer p).1.delta ≡ increase fl b p)
        × ((observe fl t3 key producer p).1.recovered ≡ true)
    retry_recovers = (rw first handed_out, again.0 ∙ laws.zero_add (increase fl b p) grows, again.1)
