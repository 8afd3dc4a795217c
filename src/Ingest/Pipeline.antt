-- ===== src/Ingest/Pipeline.antt =====
-- internal/ingest/pipeline.go: the queue between the OTLP handlers and the database.
-- `Submit` and the work on a batch run concurrently on shared atomics, a mutex and a channel: each
-- is cut into the steps that another goroutine can see (`Phase`, `Work`), and Pipeline/Schedule
-- interleaves them. Of the rows, the fields that the pipeline reads are kept. The counters of
-- statistics move with the step before them, and byte counts stay below the range of `int64`.
pub mod Processing
pub mod Schedule
pub mod Sums
pub mod Bytes
pub mod Slots
pub mod Flow
pub mod Closing
mod Tests
use otelcontext.Base.{
  ℕ, ℤ, pos, pos_part, ◌+◌, ◌-◌, ◌*◌, Bool, true, false, not, ◌&&◌, ◌||◌, Option, none, some, List,
  [], ◌∷◌, ◌++◌, ltb, leb, ◌==◌, if◌then◌else◌, Float64, Text, text_discrete, length, is_pos,
}
use otelcontext.Base.Map.{Map, at, incr, put, delete}

pub data SignalType : Type 0 where
  signal_traces signal_logs : SignalType

pub record Trace : Type 0 where
  pub trace_id : Text
  pub service_name : Text
  pub status : Text
  pub operation : Text

pub record Span : Type 0 where
  pub operation_name : Text
  pub attributes_json : Text
  pub service_name : Text
  pub status : Text

pub record Log : Type 0 where
  pub body : Text
  pub attributes_json : Text
  pub ai_insight : Text
  pub service_name : Text
  pub severity : Text

pub record Batch : Type 0 where
  pub kind : SignalType
  pub tenant : Text
  pub traces : List Trace
  pub spans : List Span
  pub logs : List Log
  pub has_error : Bool
  pub has_slow : Bool
  pub size_bytes : ℕ

pub trace_bytes : List Trace → ℕ
trace_bytes [] = 0
trace_bytes (t ∷ ts) =
    128
    + (length t.trace_id + length t.service_name + length t.status + length t.operation)
    + trace_bytes ts

pub span_bytes : List Span → ℕ
span_bytes [] = 0
span_bytes (s ∷ ss) =
    256
    + (length s.operation_name + length s.attributes_json + length s.service_name + length s.status)
    + span_bytes ss

pub log_bytes : List Log → ℕ
log_bytes [] = 0
log_bytes (l ∷ ls) =
    192
    + (length l.body
        + length l.attributes_json
        + length l.ai_insight
        + length l.service_name
        + length l.severity)
    + log_bytes ls

unfoldable pub approx_bytes : Batch → ℕ
approx_bytes b = trace_bytes b.traces + span_bytes b.spans + log_bytes b.logs

unfoldable pub priority : Batch → Bool
priority b = b.has_error || b.has_slow

unfoldable pub no_rows : Batch → Bool
no_rows b = length b.traces == 0 && length b.spans == 0 && length b.logs == 0

-- The two successes of `Submit`, and `ErrQueueFull`.
pub data Outcome : Type 0 where
  enqueued soft_dropped queue_full : Outcome

pub data Refusal : Type 0 where
  bytes_full channel_full : Refusal

-- The batch that a transaction writes, and that an envelope carries.
pub record Payload : Type 0 where
  pub tenant : Text
  pub traces : List Trace
  pub spans : List Span
  pub logs : List Log

-- `soft_full` is the test of the soft threshold on `len(queue)` and `inFlightBytes`, and `rank` the
-- level of a severity: both are fixed when the pipeline is made. `persisted` and `dead_letters` are
-- what the database and the dead letter queue have taken.
pub record Pipeline : Type 0 where
  pub capacity : ℕ
  pub max_bytes : ℕ
  pub soft_full : ℕ → ℕ → Bool
  pub per_tenant_cap : ℕ
  pub store_min_severity : ℕ
  pub rank : Text → ℕ
  pub has_dlq : Bool
  pub queue : List Batch
  pub tenant_in_flight : Map Text ℕ
  pub in_flight_bytes : ℕ
  pub enqueued_total : ℕ
  pub processed_total : ℕ
  pub dropped_healthy : ℕ
  pub rejected_full : ℕ
  pub rejected_bytes : ℕ
  pub process_failures : ℕ
  pub tenant_dropped : ℕ
  pub dlq_enqueued : ℕ
  pub dlq_failed : ℕ
  pub store_filtered : ℕ
  pub persisted : List Payload
  pub dead_letters : List Payload

-- `PipelineConfig` without the number of workers.
pub record PipelineConfig (F : Type 0) : Type 0 where
  pub capacity : ℤ
  pub soft_threshold : F
  pub max_bytes : ℤ

abbrev pub max_pipeline_capacity : ℕ
max_pipeline_capacity = 1000000

abbrev pub min_pipeline_max_bytes : ℕ
min_pipeline_max_bytes = 1048576

-- 0, 50000 and the ceiling: the clamps of `NewPipeline` on the capacity.
unfoldable pub clamp_capacity : ℤ → ℕ
clamp_capacity n =
    let capacity = if is_pos n then pos_part n else 50000 in
    if ltb max_pipeline_capacity capacity then max_pipeline_capacity else capacity

unfoldable pub clamp_max_bytes : ℤ → ℕ
clamp_max_bytes n =
    let bytes = if is_pos n then pos_part n else 512 * min_pipeline_max_bytes in
    if ltb bytes min_pipeline_max_bytes then min_pipeline_max_bytes else bytes

module _ (fl : Float64) where
  open fl use {F, zero_f, one_f, of_int, div_f, leb_f, larger_f}

  -- `default_threshold` is the literal 0.9.
  pub clamp_threshold : F → F → F
  clamp_threshold default_threshold t =
      if leb_f t zero_f || leb_f one_f t then default_threshold else t

  -- `max(itemFullness, byteFullness) >= SoftThreshold`
  pub over_threshold : F → ℕ → ℕ → ℕ → ℕ → Bool
  over_threshold threshold capacity max_bytes depth bytes = leb_f threshold (
      larger_f (div_f (of_int (pos depth)) (of_int (pos capacity)))
        (div_f (of_int (pos bytes)) (of_int (pos max_bytes))))

  pub new_pipeline : (Text → ℕ) → F → PipelineConfig F → Pipeline
  new_pipeline rank default_threshold cfg =
      let capacity = clamp_capacity cfg.capacity in
      let max_bytes = clamp_max_bytes cfg.max_bytes in
      let threshold = clamp_threshold default_threshold cfg.soft_threshold in
      record {
        capacity = capacity;
        max_bytes = max_bytes;
        soft_full = over_threshold threshold capacity max_bytes;
        per_tenant_cap = 0;
        store_min_severity = 0;
        rank = rank;
        has_dlq = false;
        queue = [];
        tenant_in_flight = [];
        in_flight_bytes = 0;
        enqueued_total = 0;
        processed_total = 0;
        dropped_healthy = 0;
        rejected_full = 0;
        rejected_bytes = 0;
        process_failures = 0;
        tenant_dropped = 0;
        dlq_enqueued = 0;
        dlq_failed = 0;
        store_filtered = 0;
        persisted = [];
        dead_letters = [];
      }

-- The three settings before `Start`; a negative number stands for 0.
unfoldable pub set_per_tenant_cap : Pipeline → ℤ → Pipeline
set_per_tenant_cap p n = record p { per_tenant_cap = pos_part n }

unfoldable pub set_store_min_severity : Pipeline → ℤ → Pipeline
set_store_min_severity p level = record p { store_min_severity = pos_part level }

unfoldable pub set_dlq : Pipeline → Pipeline
set_dlq p = record p { has_dlq = true }

-- Whether a batch takes a slot of its tenant.
unfoldable pub takes_slot : Pipeline → Batch → Bool
takes_slot p b = ltb 0 p.per_tenant_cap && ltb 0 (length b.tenant) && not (priority b)

unfoldable pub release_tenant_slot : Pipeline → Text → Pipeline
release_tenant_slot p tenant =
    let n = at text_discrete tenant p.tenant_in_flight - 1 in
    if p.per_tenant_cap == 0 || length tenant == 0 then p else record p {
      tenant_in_flight =
          if n == 0
          then delete text_discrete tenant p.tenant_in_flight
          else put text_discrete tenant n p.tenant_in_flight;
    }

-- Where a call of `Submit` stands: the flag says that it holds a slot of the tenant.
pub data Phase : Type 0 where
  entering claiming : Phase
  charging sending : Bool → Phase
  undoing : Bool → Refusal → Phase
  releasing : Refusal → Phase
  returned : Outcome → Phase

pub record Call : Type 0 where
  pub batch : Batch
  pub phase : Phase

abbrev at_phase : Batch → Phase → Call
at_phase b ph = record { batch = b; phase = ph }

-- The empty batch, the size estimate and the soft threshold.
unfoldable pub enter : Pipeline → Batch → Pipeline × Call
enter p b =
    let sized = record b { size_bytes = approx_bytes b } in
    if no_rows b
    then (p, at_phase b (returned enqueued))
    else if p.soft_full (length p.queue) p.in_flight_bytes && not (priority b)
    then (
      record p { dropped_healthy = p.dropped_healthy + 1 },
      at_phase sized (returned soft_dropped),
    )
    else (p, at_phase sized claiming)

-- The cap per tenant, under its mutex.
unfoldable pub claim : Pipeline → Batch → Pipeline × Call
claim p b =
    if not (takes_slot p b)
    then (p, at_phase b (charging false))
    else if leb p.per_tenant_cap (at text_discrete b.tenant p.tenant_in_flight)
    then (record p { tenant_dropped = p.tenant_dropped + 1 }, at_phase b (returned soft_dropped))
    else (
      record p { tenant_in_flight = incr text_discrete b.tenant p.tenant_in_flight },
      at_phase b (charging true),
    )

-- `inFlightBytes.Add` with its test on the new total.
unfoldable pub charge : Pipeline → Batch → Bool → Pipeline × Call
charge p b slot =
    let total = p.in_flight_bytes + b.size_bytes in
    (
      record p { in_flight_bytes = total },
      at_phase b (if ltb p.max_bytes total then undoing slot bytes_full else sending slot),
    )

-- The send to the channel, which does not wait.
unfoldable pub send : Pipeline → Batch → Bool → Pipeline × Call
send p b slot =
    if ltb (length p.queue) p.capacity
    then (
      record p { queue = p.queue ++ (b ∷ []); enqueued_total = p.enqueued_total + 1 },
      at_phase b (returned enqueued),
    )
    else (p, at_phase b (undoing slot channel_full))

unfoldable pub count_refusal : Pipeline → Refusal → Pipeline
count_refusal p bytes_full = record p { rejected_bytes = p.rejected_bytes + 1 }
count_refusal p channel_full = record p { rejected_full = p.rejected_full + 1 }

unfoldable pub undo : Pipeline → Batch → Bool → Refusal → Pipeline × Call
undo p b slot why =
    let back = record p { in_flight_bytes = p.in_flight_bytes - b.size_bytes } in
    if slot
    then (back, at_phase b (releasing why))
    else (count_refusal back why, at_phase b (returned queue_full))

-- One step of a call of `Submit`.
unfoldable pub submit_step : Pipeline → Batch → Phase → Pipeline × Call
submit_step p b entering = enter p b
submit_step p b claiming = claim p b
submit_step p b (charging slot) = charge p b slot
submit_step p b (sending slot) = send p b slot
submit_step p b (undoing slot why) = undo p b slot why
submit_step p b (releasing why) =
    (count_refusal (release_tenant_slot p b.tenant) why, at_phase b (returned queue_full))
submit_step p b (returned o) = (p, at_phase b (returned o))
