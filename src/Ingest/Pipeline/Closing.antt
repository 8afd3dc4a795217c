-- ===== src/Ingest/Pipeline/Closing.antt =====
-- pipeline.go: the drain of the channel when the pipeline stops, and what `Shutdown` reports.
use otelcontext.Base.{
  ℕ, ◌+◌, ◌-◌, ◌≤◌, ◌≡◌, refl, subst, ap, ap₂, leb, keep, Text, ◌∙◌, ◌⊎◌, Bool, true, false, not,
  ◌||◌, List, [], ◌∷◌, ◌++◌, arith, ltb, ◌==◌, if◌then◌else◌, length, All,
}
use otelcontext.Ingest.Pipeline.{
  Pipeline, Batch, Log, Payload, no_rows, priority, release_tenant_slot,
}
use otelcontext.Ingest.Pipeline.Processing.{
  Answers, Write, committed, failed, panicked, persist, written, fail, enqueue_dlq,
  apply_store_severity, offer_to_dlq, payload, gated, stores,
}
use otelcontext.Ingest.Pipeline.Sums.{sum}

-- `process` with its deferred calls, for a worker that nobody interrupts.
unfoldable pub process : Pipeline → Batch → Answers → Pipeline
process p b a =
    let stored = persist p b a in
    let unslotted = if priority b then stored else release_tenant_slot stored b.tenant in
    record unslotted {
      in_flight_bytes = unslotted.in_flight_bytes - b.size_bytes;
      processed_total = unslotted.processed_total + 1;
    }

-- The inner loop of `worker` behind `stopCh`, with the answers that it meets.
unfoldable pub drain : Pipeline → List Answers → Pipeline
drain p [] = p
drain p (a ∷ later) = elim p.queue [
  | [] ↦ p
  | b ∷ bs ↦ drain (process (record p { queue = bs }) b a) later
]

pub data ShutdownResult : Type 0 where
  stopped deadline_exceeded : ShutdownResult
  not_drained : ℕ → ℕ → ShutdownResult
  batches_lost unprotected : ℕ → ShutdownResult

-- `Shutdown`: whether the workers were started, and whether they ended before the deadline.
unfoldable pub shutdown : Bool → Bool → Pipeline → ShutdownResult
shutdown started in_time p =
    if not started
    then stopped
    else if not in_time
    then deadline_exceeded
    else if not (length p.queue == 0) || not (p.in_flight_bytes == 0)
    then not_drained (length p.queue) p.in_flight_bytes
    else if ltb 0 p.dlq_failed
    then batches_lost p.dlq_failed
    else if ltb p.dlq_enqueued p.process_failures
    then unprotected (p.process_failures - p.dlq_enqueued)
    else stopped

abbrev pub queued : Pipeline → ℕ
queued p = sum (λ b. b.size_bytes) p.queue

-- The database commits and no callback panics, or it fails and the sink takes the envelope.
abbrev pub Safe : Answers → Type 0
Safe a =
    ((a.write ≡ committed) × (a.callback_panics ≡ false))
    ⊎ ((a.write ≡ failed) × (a.sink_accepts ≡ true))

-- What the answer of the database leaves alone, and what it adds to the failures.
record Protected (p p' : Pipeline) : Type 0 where
  line : p'.queue ≡ p.queue
  bytes : p'.in_flight_bytes ≡ p.in_flight_bytes
  processed : p'.processed_total ≡ p.processed_total
  sink : p'.has_dlq ≡ p.has_dlq
  lost : p'.dlq_failed ≡ p.dlq_failed
  failures : p'.process_failures + p.dlq_enqueued ≡ p.process_failures + p'.dlq_enqueued

written-Protected :
    (p : Pipeline) (b : Batch) (logs : List Log) (a : Answers) (w : Write)
    → p.has_dlq ≡ true
    → ((w ≡ committed) × (a.callback_panics ≡ false)) ⊎ ((w ≡ failed) × (a.sink_accepts ≡ true))
    → Protected p (written p b logs a w)
unfolding written fail enqueue_dlq
written-Protected p b logs a committed d h = ground arith
written-Protected p b logs a failed d h = ground arith
written-Protected p b logs a panicked d h = ground arith

persist-Protected :
    (p : Pipeline) (b : Batch) (a : Answers)
    → p.has_dlq ≡ true
    → Safe a
    → Protected p (persist p b a)
unfolding persist apply_store_severity
persist-Protected p b a d h =
    let (p', logs) = apply_store_severity p b.logs in
    let through = written-Protected p' b logs a a.write d h in
    ground (
      arith, through.line, through.bytes, through.processed, through.sink, through.lost,
      through.failures,
    )

process-effect :
    (p : Pipeline) (b : Batch) (a : Answers)
    → p.has_dlq ≡ true
    → Safe a
    → ((process p b a).queue ≡ p.queue)
      × ((process p b a).in_flight_bytes ≡ p.in_flight_bytes - b.size_bytes)
      × ((process p b a).processed_total ≡ p.processed_total + 1)
      × ((process p b a).has_dlq ≡ true)
      × ((process p b a).dlq_failed ≡ p.dlq_failed)
      × ((process p b a).process_failures + p.dlq_enqueued
          ≡ p.process_failures + (process p b a).dlq_enqueued)
unfolding process release_tenant_slot
process-effect p b a d h =
    let k = persist-Protected p b a d h in
    ground (arith, k.line, k.bytes, k.processed, k.sink, k.lost, k.failures, d)

-- At rest after a drain.
abbrev Rest : ℕ → Pipeline → Type 0
Rest n p =
    (length p.queue ≡ 0)
    × (p.in_flight_bytes ≡ 0)
    × (p.processed_total ≡ n)
    × (p.dlq_failed ≡ 0)
    × (p.process_failures ≤ p.dlq_enqueued)

drain-Rest :
    (p : Pipeline) (bs : List Batch) (later : List Answers)
    → p.queue ≡ bs
    → p.has_dlq ≡ true
    → All Safe later
    → length bs ≤ length later
    → p.in_flight_bytes ≡ sum (λ b. b.size_bytes) bs
    → p.dlq_failed ≡ 0
    → p.process_failures ≤ p.dlq_enqueued
    → Rest (p.processed_total + length bs) (drain p later)
unfolding drain
drain-Rest p [] [] e d h l bytes none_lost covered = ground (arith, ap length e)
drain-Rest p [] (a ∷ later) e d h l bytes none_lost covered =
    rw (e, drain) (ap length e, bytes, omega arith, none_lost, covered)
drain-Rest p (b ∷ bs) [] e d h l bytes none_lost covered = absurd (omega (arith, l))
drain-Rest p (b ∷ bs) (a ∷ later) e d h l bytes none_lost covered =
    let p' = process (record p { queue = bs }) b a in
    let (line, left, processed, sink, lost, failures) =
      process-effect (record p { queue = bs }) b a d h.0 in
    let rest =
      drain-Rest p' bs later line sink h.1 (omega (arith, l)) (omega (arith, left, bytes))
        (lost ∙ none_lost) (omega (arith, failures, covered)) in
    rw (e, drain) (subst (λ n. Rest n (drain p' later)) (omega (arith, processed)) rest)

-- A worker that drains the channel after the stop, when every batch is either committed without a
-- panic or rolled back and taken by the dead letter queue: once it has had as many answers as the
-- channel had batches, all of them are processed, and `Shutdown` reports no error, if the bytes in
-- flight were those of the channel, no envelope had been refused and no failure was uncovered.
pub drain_stops :
    (p : Pipeline) (later : List Answers)
    → p.has_dlq ≡ true
    → All Safe later
    → length p.queue ≤ length later
    → p.in_flight_bytes ≡ queued p
    → p.dlq_failed ≡ 0
    → p.process_failures ≤ p.dlq_enqueued
    → ((drain p later).processed_total ≡ p.processed_total + length p.queue)
      × (shutdown true true (drain p later) ≡ stopped)
unfolding shutdown
drain_stops p later d h l bytes none_lost covered =
    let (line, left, processed, lost, failures) =
      drain-Rest p p.queue later refl d h l bytes none_lost covered in
    ground (arith, line, left, processed, lost, failures)

-- A processed batch whose write panicked.
record Lost (p : Pipeline) (b : Batch) (p' : Pipeline) : Type 0 where
  line : p'.queue ≡ p.queue
  bytes : p'.in_flight_bytes ≡ p.in_flight_bytes - b.size_bytes
  sink : p'.has_dlq ≡ p.has_dlq
  refusals : p'.dlq_failed ≡ p.dlq_failed
  failures : p'.process_failures ≡ p.process_failures + 1
  deferred : p'.dlq_enqueued ≡ p.dlq_enqueued
  persisted : p'.persisted ≡ p.persisted
  letters : p'.dead_letters ≡ p.dead_letters
  severity : p'.store_min_severity ≡ p.store_min_severity
  rank : p'.rank ≡ p.rank

gated_congr :
    (p p' : Pipeline) (logs : List Log)
    → p'.store_min_severity ≡ p.store_min_severity
    → p'.rank ≡ p.rank
    → gated p' logs ≡ gated p logs
unfolding gated stores
gated_congr p p' logs e f =
    ap₂
      (λ (m : ℕ) (r : Text → ℕ).
        if m == 0 || length logs == 0 then logs else keep (λ (l : Log). leb m (r l.severity)) logs)
      e f

process_panicked :
    (p : Pipeline) (b : Batch) (a : Answers)
    → no_rows b ≡ false
    → a.write ≡ panicked
    → Lost p b (process p b a)
unfolding process persist apply_store_severity release_tenant_slot written fail
process_panicked p b a rows w = ground (arith, rows, w)

-- The bug: `Shutdown` compares the failures with all envelopes that the dead letter queue took,
-- also those of batches that `OfferToDLQ` handed over because the channel was full. At rest with
-- its failures covered, a batch with rows whose write panics is lost, and `Shutdown` says so; but
-- after any batch that is offered and taken it reports no error, although neither the
-- database nor the dead letter queue has gained anything but the offered batch.
pub offer_masks_loss :
    (p : Pipeline) (b other : Batch) (a : Answers)
    → p.has_dlq ≡ true
    → length p.queue ≡ 0
    → p.in_flight_bytes ≡ b.size_bytes
    → p.dlq_failed ≡ 0
    → p.process_failures ≡ p.dlq_enqueued
    → no_rows b ≡ false
    → a.write ≡ panicked
    → (shutdown true true (process p b a) ≡ unprotected 1)
      × (shutdown true true (offer_to_dlq (process p b a) other true).0 ≡ stopped)
      × ((offer_to_dlq (process p b a) other true).0.persisted ≡ p.persisted)
      × ((offer_to_dlq (process p b a) other true).0.dead_letters
          ≡ p.dead_letters ++ (payload other (gated p other.logs) ∷ []))
unfolding shutdown enqueue_dlq offer_to_dlq apply_store_severity
offer_masks_loss p b other a d line bytes none_lost covered rows w =
    let p' = process p b a in
    let k = process_panicked p b a rows w in
    let same = gated_congr p p' other.logs k.severity k.rank in
    ground (
      arith,
      k.line,
      k.bytes,
      k.sink,
      k.refusals,
      k.failures,
      k.deferred,
      k.persisted,
      k.letters,
      ap length k.line,
      ap₂ (λ (x : List Payload) (y : List Log). x ++ (payload other y ∷ [])) k.letters same,
    )
