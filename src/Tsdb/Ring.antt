-- ===== src/Tsdb/Ring.antt =====
-- internal/tsdb/ringbuffer.go: a ring of windows per series, and the map of the rings.
-- `time.Now` is an argument. Windows without a sample have the bounds of `newEmptyAgg`. The
-- percentiles are computed on read and are not part of the state.
pub mod Advance
pub mod Series
mod Tests
use otelcontext.Base.{
  ℕ, zero, suc, ◌+◌, ◌-◌, ◌/◌, ◌%◌, Bool, true, false, ◌&&◌, Option, none, some, List, [], ◌∷◌,
  ◌++◌, ltb, leb, ◌==◌, min, if◌then◌else◌, Float64, Text, text, text_discrete, length, replicate,
  set, get_elem?,
}
use otelcontext.Base.Map.{Map, size, get, put}
use otelcontext.Tsdb.Aggregator.{truncate, bar}

abbrev pub max_samples : ℕ
max_samples = 256

-- `storage.DefaultTenantID`, which stands for an empty tenant.
abbrev pub default_tenant_id : Text
default_tenant_id = text "default"

pub ring_key : Text → Text → Text → Text
ring_key [] metric service = default_tenant_id ++ (bar ++ (service ++ (bar ++ metric)))
ring_key (c ∷ cs) metric service = (c ∷ cs) ++ (bar ++ (service ++ (bar ++ metric)))

module _ (fl : Float64) where
  open fl use {F, zero_f, add_f, max_f, neg_max_f, ltb_f}

  pub record WindowAgg : Type 0 where
    pub metric_name : Text
    pub service_name : Text
    pub window_start : ℕ
    pub count : ℕ
    pub sum : F
    pub min : F
    pub max : F
    pub samples : List F

  pub record MetricRing : Type 0 where
    pub slots : List WindowAgg
    pub size : ℕ
    pub window_dur : ℕ
    pub current_idx : ℕ
    pub current_start : ℕ
    pub metric_name : Text
    pub service_name : Text

  unfoldable pub new_empty_agg : Text → Text → WindowAgg
  new_empty_agg metric service = record {
    metric_name = metric;
    service_name = service;
    window_start = 0;
    count = 0;
    sum = zero_f;
    min = max_f;
    max = neg_max_f;
    samples = [];
  }

  -- An empty aggregate that starts at a given time.
  unfoldable pub empty_at : MetricRing → ℕ → WindowAgg
  empty_at r start = record (new_empty_agg r.metric_name r.service_name) { window_start = start }

  pub new_metric_ring : Text → Text → ℕ → ℕ → ℕ → MetricRing
  new_metric_ring metric service slots window_dur now =
      let empty = new_empty_agg metric service in
      let start = truncate now window_dur in
      record {
        slots = set (replicate slots empty) 0 (record empty { window_start = start });
        size = slots;
        window_dur = window_dur;
        current_idx = 0;
        current_start = start;
        metric_name = metric;
        service_name = service;
      }

  -- The body of the advancing loop.
  unfoldable pub advance_one : MetricRing → MetricRing
  advance_one r =
      let idx = (r.current_idx + 1) % r.size in
      let start = r.current_start + r.window_dur in
      record r {
        current_idx = idx;
        current_start = start;
        slots = set r.slots idx (empty_at r start);
      }

  unfoldable pub advance : ℕ → MetricRing → MetricRing
  advance zero r = r
  advance (suc n) r = advance n (advance_one r)

  pub add_sample : WindowAgg → F → WindowAgg
  add_sample w value = record w {
    count = w.count + 1;
    sum = add_f w.sum value;
    min = if ltb_f value w.min then value else w.min;
    max = if ltb_f w.max value then value else w.max;
    samples = if ltb (length w.samples) max_samples then w.samples ++ (value ∷ []) else w.samples;
  }

  -- The number of iterations, `i < steps && i < r.size`.
  unfoldable pub steps_to : MetricRing → ℕ → ℕ
  steps_to r window_start = min ((window_start - r.current_start) / r.window_dur) r.size

  -- The advance to a later window; `none` is the panic of a division by a window of no length.
  unfoldable pub catch_up : MetricRing → ℕ → Option MetricRing
  catch_up r window_start =
      if ltb r.current_start window_start
      then if r.window_dur == 0 then none else some (advance (steps_to r window_start) r)
      else some r

  -- The update of the current slot; an index out of range would panic.
  pub update_slot : MetricRing → F → Option MetricRing
  update_slot r value = elim (get_elem? r.slots r.current_idx) [
    | none ↦ none
    | some w ↦ some (record r { slots = set r.slots r.current_idx (add_sample w value) })
  ]

  unfoldable pub record_ring : MetricRing → F → ℕ → Option MetricRing
  record_ring r value time = elim (catch_up r (truncate time r.window_dur)) [
    | none ↦ none
    | some c ↦ update_slot c value
  ]

  pub record RingBuffer : Type 0 where
    pub rings : Map Text MetricRing
    pub slots : ℕ
    pub window_dur : ℕ
    pub max_series : ℕ

  pub new_ring_buffer : ℕ → ℕ → ℕ → RingBuffer
  new_ring_buffer slots window_dur max_series = record {
    rings = [];
    slots = slots;
    window_dur = window_dur;
    max_series = max_series;
  }

  -- A new series would exceed the cap.
  pub rejects : RingBuffer → Bool
  rejects rb = ltb 0 rb.max_series && leb rb.max_series (otelcontext.Base.Map.size rb.rings)

  -- The ring of a series, made if it is not there; a ring is shared, so its update is stored.
  pub store_ring : RingBuffer → Text → Option MetricRing → Option (RingBuffer × Bool)
  store_ring rb key none = none
  store_ring rb key (some r) = some (record rb { rings = put text_discrete key r rb.rings }, true)

  -- `none` stands for a panic, the Boolean for the result.
  pub record_point : RingBuffer → Text → Text → Text → F → ℕ → ℕ → Option (RingBuffer × Bool)
  record_point rb tenant metric service value time now =
      let key = ring_key tenant metric service in
      elim (get text_discrete key rb.rings) [
        | some r ↦ store_ring rb key (record_ring r value time)
        | none ↦
            if rejects rb
            then some (rb, false)
            else store_ring rb key
                (record_ring (new_metric_ring metric service rb.slots rb.window_dur now) value time)
      ]
