-- ===== src/Tsdb/Aggregator.antt =====
-- internal/tsdb/aggregator.go: the current window's buckets, their caps, and the flush.
-- `json.Marshal` of a point's attributes is a parameter. Telemetry callbacks are the list of labels
-- that an ingest fires; the flush channel is the list of the batches that wait in it.
pub mod Counting
pub mod Caps
pub mod Fairness
mod Tests
use otelcontext.Base.{
  ℕ, ◌+◌, ◌-◌, ◌%◌, Bool, true, false, ◌&&◌, Option, none, some, List, [], ◌∷◌, ◌++◌, map, ltb, leb,
  ◌==◌, if◌then◌else◌, Float64, Text, text, text_discrete, length,
}
use otelcontext.Base.Map.{Map, size, get, put, at, incr}

-- `t.Truncate(d)`, in nanoseconds since Go's zero time.
pub truncate : ℕ → ℕ → ℕ
truncate t d = if d == 0 then t else t - t % d

abbrev pub bar : Text
bar = text "|"

abbrev pub overflow_sentinel_global : Text
overflow_sentinel_global = text "__global__"

abbrev pub overflow_key : Text
overflow_key = text "__cardinality_overflow__"

abbrev pub overflow_name : Text
overflow_name = text "__overflow__"

module _ (fl : Float64) (Attributes : Type 0) (marshal : Attributes → Text) where
  open fl use {F, add_f, ltb_f}

  pub record RawMetric : Type 0 where
    pub name : Text
    pub service_name : Text
    pub value : F
    pub timestamp : ℕ
    pub attributes : Attributes
    pub tenant_id : Text

  -- `storage.MetricBucket`, without the row's database identity.
  pub record MetricBucket : Type 0 where
    pub tenant_id : Text
    pub name : Text
    pub service_name : Text
    pub time_bucket : ℕ
    pub min : F
    pub max : F
    pub sum : F
    pub count : ℕ
    pub attributes_json : Text

  pub record Aggregator : Type 0 where
    pub window_size : ℕ
    pub buckets : Map Text MetricBucket
    pub max_cardinality : ℕ
    pub per_tenant_cardinality : ℕ
    pub series_per_tenant : Map Text ℕ
    pub flush_chan : List (List MetricBucket)
    pub flush_capacity : ℕ
    pub dropped_batches : ℕ

  unfoldable pub new_aggregator : ℕ → Aggregator
  new_aggregator window_size = record {
    window_size = window_size;
    buckets = [];
    max_cardinality = 0;
    per_tenant_cardinality = 0;
    series_per_tenant = [];
    flush_chan = [];
    flush_capacity = 500;
    dropped_batches = 0;
  }

  -- A negative limit is not greater than 0, so it stands for 0 here.
  pub set_cardinality_limit : Aggregator → ℕ → ℕ → Aggregator
  set_cardinality_limit a global per_tenant = record a {
    max_cardinality = global;
    per_tenant_cardinality = per_tenant;
  }

  pub series_key : RawMetric → Text
  series_key m =
      m.tenant_id ++ (bar ++ (m.service_name ++ (bar ++ (m.name ++ (bar ++ marshal m.attributes)))))

  pub fresh_bucket : Aggregator → RawMetric → Text → Text → MetricBucket
  fresh_bucket a m name attributes_json = record {
    tenant_id = m.tenant_id;
    name = name;
    service_name = m.service_name;
    time_bucket = truncate m.timestamp a.window_size;
    min = m.value;
    max = m.value;
    sum = m.value;
    count = 1;
    attributes_json = attributes_json;
  }

  -- The end of `Ingest`: the point goes into a bucket that is there.
  pub update_bucket : MetricBucket → RawMetric → MetricBucket
  update_bucket b m = record b {
    min = if ltb_f m.value b.min then m.value else b.min;
    max = if ltb_f b.max m.value then m.value else b.max;
    sum = add_f b.sum m.value;
    count = b.count + 1;
  }

  pub over_tenant_cap : Aggregator → RawMetric → Bool
  over_tenant_cap a m =
      ltb 0 a.per_tenant_cardinality
      && leb a.per_tenant_cardinality (at text_discrete m.tenant_id a.series_per_tenant)

  pub over_global_cap : Aggregator → Bool
  over_global_cap a = ltb 0 a.max_cardinality && leb a.max_cardinality (size a.buckets)

  -- The bucket under `key`, or a fresh overflow bucket, which is stored; then the common update.
  abbrev pub bucket_or_fresh : Aggregator → RawMetric → Option MetricBucket → MetricBucket
  bucket_or_fresh a m none = fresh_bucket a m overflow_name []
  bucket_or_fresh a m (some b) = b

  pub ingest_overflow : Aggregator → RawMetric → Text → Aggregator
  ingest_overflow a m key =
      let b = bucket_or_fresh a m (get text_discrete key a.buckets) in
      record a {
        buckets = put text_discrete key (update_bucket b m) (put text_discrete key b a.buckets);
      }

  pub ingest_fresh : Aggregator → RawMetric → Text → Aggregator
  ingest_fresh a m key = record a {
    buckets = put text_discrete key (fresh_bucket a m m.name (marshal m.attributes)) a.buckets;
    series_per_tenant = incr text_discrete m.tenant_id a.series_per_tenant;
  }

  abbrev pub tenant_overflow_key : RawMetric → Text
  tenant_overflow_key m = overflow_key ++ (bar ++ m.tenant_id)

  -- The callback fires for a label that is not empty.
  abbrev fires : Text → List Text
  fires [] = []
  fires (c ∷ cs) = (c ∷ cs) ∷ []

  pub ingest_new : Aggregator → RawMetric → Text → Aggregator × List Text
  ingest_new a m key =
      if over_tenant_cap a m
      then (ingest_overflow a m (tenant_overflow_key m), fires m.tenant_id)
      else if over_global_cap a
      then (ingest_overflow a m overflow_key, overflow_sentinel_global ∷ [])
      else (ingest_fresh a m key, [])

  pub ingest : Aggregator → RawMetric → Aggregator × List Text
  ingest a m =
      let key = series_key m in
      elim (get text_discrete key a.buckets) [
        | some b ↦ (record a { buckets = put text_discrete key (update_bucket b m) a.buckets }, [])
        | none ↦ ingest_new a m key
      ]

  pub values : Map Text MetricBucket → List MetricBucket
  values = map (λ e. e.1)

  -- The counted error of a flush whose batch is dropped.
  pub data FlushError : Type 0 where
    dropped : ℕ → FlushError

  -- A final flush waits for room; its batch is appended whatever the capacity.
  pub send : Aggregator → Bool → List MetricBucket → Aggregator × Option FlushError
  send a final batch =
      if final
      then (record a { flush_chan = a.flush_chan ++ (batch ∷ []) }, none)
      else if ltb (length a.flush_chan) a.flush_capacity
      then (record a { flush_chan = a.flush_chan ++ (batch ∷ []) }, none)
      else (record a { dropped_batches = a.dropped_batches + 1 }, some (dropped (length batch)))

  pub flush : Aggregator → Bool → Aggregator × Option FlushError
  flush a final =
      if size a.buckets == 0
      then (a, none)
      else send (record a { buckets = []; series_per_tenant = [] }) final (values a.buckets)

  -- A persistence worker takes the oldest batch.
  pub take_batch : Aggregator → Option (Aggregator × List MetricBucket)
  take_batch a = elim a.flush_chan [
    | [] ↦ none
    | batch ∷ rest ↦ some (record a { flush_chan = rest }, batch)
  ]
