-- ===== src/Ingest/Pipeline/Processing.antt =====
-- pipeline.go: a worker's `process` with its deferred calls, and the dead letter queue behind it.
-- What the database, the callbacks and the queue's sink answer is a parameter (`Answers`).
use otelcontext.Base.{
  ◌+◌, ◌-◌, Bool, List, [], ◌∷◌, ◌++◌, leb, ◌==◌, ◌||◌, if◌then◌else◌, keep, length,
}
use otelcontext.Ingest.Pipeline.{
  Pipeline, Batch, Log, Payload, priority, no_rows, release_tenant_slot,
}

-- `BatchCreateAll`: one transaction, so it takes all rows or none. A panic rolls it back.
pub data Write : Type 0 where
  committed failed panicked : Write

pub record Answers : Type 0 where
  pub write : Write
  pub callback_panics : Bool
  pub sink_accepts : Bool

-- The outcomes of `enqueueDLQ`: nil, `ErrNoDLQ`, the sink's error.
pub data DlqOutcome : Type 0 where
  deferred no_dlq refused : DlqOutcome

unfoldable pub stores : Pipeline → Log → Bool
stores p l = leb p.store_min_severity (p.rank l.severity)

unfoldable pub gated : Pipeline → List Log → List Log
gated p logs = if p.store_min_severity == 0 || length logs == 0 then logs else keep (stores p) logs

-- `applyStoreSeverity`: the logs to persist, with the count of the others.
unfoldable pub apply_store_severity : Pipeline → List Log → Pipeline × List Log
apply_store_severity p logs = (
  record p { store_filtered = p.store_filtered + (length logs - length (gated p logs)) },
  gated p logs,
)

abbrev pub payload : Batch → List Log → Payload
payload b logs = record { tenant = b.tenant; traces = b.traces; spans = b.spans; logs = logs }

unfoldable pub enqueue_dlq : Pipeline → Batch → List Log → Bool → Pipeline × DlqOutcome
enqueue_dlq p b logs accepts =
    if p.has_dlq
    then if accepts
      then (
        record p {
          dlq_enqueued = p.dlq_enqueued + 1;
          dead_letters = p.dead_letters ++ (payload b logs ∷ []);
        },
        deferred,
      )
      else (record p { dlq_failed = p.dlq_failed + 1 }, refused)
    else (p, no_dlq)

-- `OfferToDLQ`: a batch that the queue refused.
unfoldable pub offer_to_dlq : Pipeline → Batch → Bool → Pipeline × DlqOutcome
offer_to_dlq p b accepts =
    let (p', logs) = apply_store_severity p b.logs in enqueue_dlq p' b logs accepts

unfoldable pub fail : Pipeline → Pipeline
fail p = record p { process_failures = p.process_failures + 1 }

-- The answer of the database, with the recovery of a panic.
unfoldable pub written : Pipeline → Batch → List Log → Answers → Write → Pipeline
written p b logs a committed =
    let stored = record p { persisted = p.persisted ++ (payload b logs ∷ []) } in
    if a.callback_panics then fail stored else stored
written p b logs a failed = (enqueue_dlq (fail p) b logs a.sink_accepts).0
written p b logs a panicked = fail p

-- `process` up to its deferred calls.
unfoldable pub persist : Pipeline → Batch → Answers → Pipeline
persist p b a =
    if no_rows b
    then p
    else let (p', logs) = apply_store_severity p b.logs in written p' b logs a a.write

-- Where a worker stands: the deferred calls run in the reverse order of their registration.
pub data Work : Type 0 where
  idle : Work
  persisting releasing_slot releasing_bytes finishing : Batch → Work

unfoldable pub after_persist : Batch → Work
after_persist b = if priority b then releasing_bytes b else releasing_slot b

-- One step of a worker: an idle one takes the oldest batch of the channel.
unfoldable pub take_batch : Pipeline → List Batch → Pipeline × Work
take_batch p [] = (p, idle)
take_batch p (b ∷ bs) = (record p { queue = bs }, persisting b)

unfoldable pub work_step : Pipeline → Answers → Work → Pipeline × Work
work_step p a idle = take_batch p p.queue
work_step p a (persisting b) = (persist p b a, after_persist b)
work_step p a (releasing_slot b) = (release_tenant_slot p b.tenant, releasing_bytes b)
work_step p a (releasing_bytes b) =
    (record p { in_flight_bytes = p.in_flight_bytes - b.size_bytes }, finishing b)
work_step p a (finishing b) = (record p { processed_total = p.processed_total + 1 }, idle)
