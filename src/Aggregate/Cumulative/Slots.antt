-- ===== src/Aggregate/Cumulative/Slots.antt =====
-- temporality.go: which record a point touches, and what stands there afterwards.
use otelcontext.Base.{
  ℕ, ◌≡◌, ◌∙◌, ◌≢◌, ◌⊎◌, inl, inr, false, some, arith, Float64, ℕ_discrete, Option-cases, if_neg,
  [],
}
use otelcontext.Base.Map.{get, put}
use otelcontext.Base.Map.Laws.{get-put, get-put_self}
use otelcontext.Aggregate.Key.{SeriesKey, key_discrete}
use otelcontext.Aggregate.Tracker.{Tracker, BaselineState, by_producer, state_of, set_state}
use otelcontext.Aggregate.Cumulative.{Routed, route, ensure_series}

module _ (fl : Float64) where
  module _ (t : Tracker fl) (key : SeriesKey) (producer : ℕ) (st : BaselineState fl) where
    pub state_of-set_state_self :
        state_of fl (set_state fl t key producer st) key producer ≡ some st
    unfolding state_of set_state by_producer
    state_of-set_state_self =
        rw
          (get-put_self key_discrete key (put ℕ_discrete producer st (by_producer fl t key))
            t.series)
          (get-put_self ℕ_discrete producer st (by_producer fl t key))

    pub state_of-set_state_ne :
        (k : SeriesKey) (q : ℕ)
        → (k ≢ key) ⊎ (q ≢ producer)
        → state_of fl (set_state fl t key producer st) k q ≡ state_of fl t k q
    unfolding state_of set_state by_producer
    state_of-set_state_ne k q ne = elim (key_discrete key k) [
      | yes e ↦
          rw
            (
              ← e,
              get-put_self key_discrete key (put ℕ_discrete producer st (by_producer fl t key))
                  t.series,
              get-put ℕ_discrete q producer st (by_producer fl t key),
            )
            (ground arith)
      | no n ↦ rw (
        get-put key_discrete k key (put ℕ_discrete producer st (by_producer fl t key)) t.series,
        if_neg (key_discrete key k) n,
      )
    ]

  ensure_series-state :
      (t : Tracker fl) (key k : SeriesKey) (q : ℕ)
      → state_of fl (ensure_series fl t key) k q ≡ state_of fl t k q
  unfolding ensure_series state_of by_producer get
  ensure_series-state t key k q = elim (Option-cases (get key_discrete key t.series)) [
    | inr (m, e) ↦ rw (e, ensure_series)
    | inl e ↦
        rw (e, ensure_series)
          (elim (key_discrete key k) [
            | yes same ↦ rw (← same, get-put_self key_discrete key [] t.series, e)
            | no other ↦
                rw (get-put key_discrete k key [] t.series, if_neg (key_discrete key k) other)
          ])
  ]

  route-state :
      (t : Tracker fl) (key k : SeriesKey) (producer q : ℕ)
      → state_of fl (route fl t key producer).tracker k q ≡ state_of fl t k q
  unfolding route state_of by_producer
  route-state t key k producer q = ground arith

  -- The slot that a point of a producer goes to.
  abbrev pub routed : Tracker fl → SeriesKey → ℕ → Routed fl
  routed t key producer = route fl (ensure_series fl t key) key producer

  pub routed-state :
      (t : Tracker fl) (key k : SeriesKey) (producer q : ℕ)
      → state_of fl (routed t key producer).tracker k q ≡ state_of fl t k q
  routed-state t key k producer q =
      route-state (ensure_series fl t key) key k producer q ∙ ensure_series-state t key k q

  pub gap-routed :
      (t : Tracker fl) (key : SeriesKey) (producer : ℕ)
      → (routed t key producer).tracker.cfg ≡ t.cfg
  unfolding route ensure_series
  gap-routed t key producer = ground arith

  -- A producer that has a baseline keeps its own slot.
  pub routed-own :
      (t : Tracker fl) (key : SeriesKey) (producer : ℕ) (b : BaselineState fl)
      → state_of fl t key producer ≡ some b
      → ((routed t key producer).producer ≡ producer) × ((routed t key producer).degraded ≡ false)
  routed-own t key producer b h =
      own (ensure_series fl t key) (ensure_series-state t key key producer ∙ h)
    where
      own :
          (u : Tracker fl)
          → state_of fl u key producer ≡ some b
          → ((route fl u key producer).producer ≡ producer)
            × ((route fl u key producer).degraded ≡ false)
      own u e = unfold route state_of in ground arith
