-- ===== src/Ingest/Pipeline/Flow.antt =====
-- pipeline.go: what one step does to the counters, the channel and the fate of the batches.
-- Conservation follows them over runs.
pub mod Conservation
use otelcontext.Base.{
  ℕ, zero, suc, ◌+◌, ◌-◌, ◌≤◌, ◌<◌, ◌≡◌, refl, sym, ap, subst, ◌∙◌, inl, inr, Bool, true, false,
  not, ◌&&◌, Option, none, some, List, [], ◌∷◌, ◌++◌, arith, get_elem?, set, replicate, ltb, bit,
  if◌then◌else◌, Option-cases, Bool-cases, length, length-append, Text, All, All-append,
}
use otelcontext.Ingest.Pipeline.{
  Pipeline, Batch, Log, Call, Phase, Outcome, enqueued, soft_dropped, queue_full, entering,
  claiming, charging, sending, undoing, releasing, returned, Refusal, bytes_full, channel_full,
  submit_step, enter, claim, charge, send, undo, count_refusal, release_tenant_slot, no_rows,
}
use otelcontext.Ingest.Pipeline.Processing.{
  Work, idle, persisting, releasing_slot, releasing_bytes, finishing, Answers, Write, committed,
  failed, panicked, work_step, take_batch, persist, written, fail, enqueue_dlq,
  apply_store_severity, after_persist, offer_to_dlq, payload,
}

abbrev pub Rows : Batch → Type 0
Rows b = no_rows b ≡ false

-- A batch that is past the door has rows; one that returned at the door may have none.
abbrev pub RowsCall : Call → Type 0
RowsCall c = elim c.phase [ entering ↦ Unit {0} | returned o ↦ Unit {0} | _ ↦ Rows c.batch ]

abbrev pub RowsWork : Work → Type 0
RowsWork idle = Unit {0}
RowsWork (persisting b) = Rows b
RowsWork (releasing_slot b) = Rows b
RowsWork (releasing_bytes b) = Rows b
RowsWork (finishing b) = Rows b

-- The calls with rows that have been answered.
abbrev pub answered_enqueued : Call → ℕ
answered_enqueued c = elim c.phase [
  | returned o ↦ elim o [ enqueued ↦ bit (not (no_rows c.batch)) | _ ↦ 0 ]
  | _ ↦ 0
]

abbrev pub answered_soft : Call → ℕ
answered_soft c = elim c.phase [ returned o ↦ elim o [ soft_dropped ↦ 1 | _ ↦ 0 ] | _ ↦ 0 ]

abbrev pub answered_full : Call → ℕ
answered_full c = elim c.phase [ returned o ↦ elim o [ queue_full ↦ 1 | _ ↦ 0 ] | _ ↦ 0 ]

abbrev pub busy : Work → ℕ
busy idle = 0
busy w = 1

-- A worker whose batch has had its answer from the database.
abbrev pub answered : Work → ℕ
answered idle = 0
answered (persisting b) = 0
answered w = 1

module _ (p : Pipeline) (b : Batch) where
  abbrev at_phase : Phase → Call
  at_phase ph = record { batch = b; phase = ph }

  -- What a step of a call keeps and counts.
  pub record Counted (ph : Phase) (p' : Pipeline) (c : Call) : Type 0 where
    pub taken : p'.enqueued_total + length p.queue ≡ p.enqueued_total + length p'.queue
    pub enqueues :
        p'.enqueued_total + answered_enqueued (at_phase ph) ≡ p.enqueued_total + answered_enqueued c
    pub softs :
        p'.dropped_healthy + p'.tenant_dropped + answered_soft (at_phase ph)
        ≡ p.dropped_healthy + p.tenant_dropped + answered_soft c
    pub fulls :
        p'.rejected_full + p'.rejected_bytes + answered_full (at_phase ph)
        ≡ p.rejected_full + p.rejected_bytes + answered_full c
    pub capacity : p'.capacity ≡ p.capacity
    pub depth : length p.queue ≤ p.capacity → length p'.queue ≤ p.capacity
    pub processed : p'.processed_total ≡ p.processed_total
    pub persisted : length p'.persisted ≡ length p.persisted
    pub failures : p'.process_failures ≡ p.process_failures
    pub letters : length p'.dead_letters ≡ length p.dead_letters
    pub deferred : p'.dlq_enqueued ≡ p.dlq_enqueued

  pub submit_step-Counted :
      (ph : Phase)
      → RowsCall (at_phase ph)
      → Counted ph (submit_step p b ph).0 (submit_step p b ph).1
  unfolding submit_step enter claim charge send undo count_refusal release_tenant_slot no_rows
  submit_step-Counted entering h = ground arith
  submit_step-Counted claiming h = ground arith
  submit_step-Counted (charging slot) h = ground arith
  submit_step-Counted (sending slot) h = ground (arith, length-append {0} p.queue (b ∷ []), h)
  submit_step-Counted (undoing true why) h = ground arith
  submit_step-Counted (undoing false bytes_full) h = ground arith
  submit_step-Counted (undoing false channel_full) h = ground arith
  submit_step-Counted (releasing bytes_full) h = ground arith
  submit_step-Counted (releasing channel_full) h = ground arith
  submit_step-Counted (returned o) h = ground arith

  pub submit_step-Rows :
      (ph : Phase)
      → RowsCall (at_phase ph)
      → All Rows p.queue
      → RowsCall (submit_step p b ph).1 × All Rows (submit_step p b ph).0.queue
  unfolding submit_step enter claim charge send undo count_refusal release_tenant_slot no_rows
  submit_step-Rows entering h q = ground arith
  submit_step-Rows claiming h q = ground arith
  submit_step-Rows (charging slot) h q = ground arith
  submit_step-Rows (sending slot) h q = ground (arith, All-append Rows p.queue (b ∷ []) q (h, tt))
  submit_step-Rows (undoing true why) h q = ground arith
  submit_step-Rows (undoing false bytes_full) h q = ground arith
  submit_step-Rows (undoing false channel_full) h q = ground arith
  submit_step-Rows (releasing bytes_full) h q = ground arith
  submit_step-Rows (releasing channel_full) h q = ground arith
  submit_step-Rows (returned o) h q = ground arith

-- What a step of a worker keeps and counts.
pub record Worked (p : Pipeline) (w : Work) (p' : Pipeline) (w' : Work) : Type 0 where
  pub flow :
      length p.queue + busy w + p.processed_total ≡ length p'.queue + busy w' + p'.processed_total
  pub fate :
      p'.processed_total + answered w' + length p.persisted + p.process_failures
      ≤ p.processed_total + answered w + length p'.persisted + p'.process_failures
  pub letters : length p'.dead_letters + p.dlq_enqueued ≡ length p.dead_letters + p'.dlq_enqueued
  pub shorter : length p'.queue ≤ length p.queue
  pub capacity : p'.capacity ≡ p.capacity
  pub enqueues : p'.enqueued_total ≡ p.enqueued_total
  pub softs : p'.dropped_healthy + p'.tenant_dropped ≡ p.dropped_healthy + p.tenant_dropped
  pub fulls : p'.rejected_full + p'.rejected_bytes ≡ p.rejected_full + p.rejected_bytes

written-Worked :
    (p : Pipeline) (b : Batch) (logs : List Log) (a : Answers) (w : Write)
    → Worked p (persisting b) (written p b logs a w) (finishing b)
unfolding written fail enqueue_dlq
written-Worked p b logs a committed =
    ground (arith, length-append {0} p.persisted (payload b logs ∷ []))
written-Worked p b logs a failed =
    ground (arith, length-append {0} p.dead_letters (payload b logs ∷ []))
written-Worked p b logs a panicked = ground arith

persist-Worked :
    (p : Pipeline) (b : Batch) (a : Answers)
    → Rows b
    → Worked p (persisting b) (persist p b a) (after_persist b)
unfolding persist apply_store_severity after_persist
persist-Worked p b a h =
    let (p', logs) = apply_store_severity p b.logs in
    let through = written-Worked p' b logs a a.write in
    ground (
      arith, h, through.flow, through.fate, through.letters, through.shorter, through.capacity,
      through.enqueues, through.softs, through.fulls,
    )

pub work_step-Worked :
    (p : Pipeline) (a : Answers) (w : Work)
    → RowsWork w
    → Worked p w (work_step p a w).0 (work_step p a w).1
unfolding work_step take_batch release_tenant_slot
work_step-Worked p a idle h = ground arith
work_step-Worked p a (persisting b) h = persist-Worked p b a h
work_step-Worked p a (releasing_slot b) h = ground arith
work_step-Worked p a (releasing_bytes b) h = ground arith
work_step-Worked p a (finishing b) h = ground arith

persist-queue : (p : Pipeline) (b : Batch) (a : Answers) → (persist p b a).queue ≡ p.queue
unfolding persist written fail enqueue_dlq apply_store_severity
persist-queue p b a =
    elim a.write as (λ w. (persist p b (record a { write = w })).queue ≡ p.queue) [
      | committed ↦ ground arith
      | failed ↦ ground arith
      | panicked ↦ ground arith
    ]

take_batch-Rows :
    (p : Pipeline) (bs : List Batch)
    → p.queue ≡ bs
    → All Rows bs
    → RowsWork (take_batch p bs).1 × All Rows (take_batch p bs).0.queue
unfolding take_batch
take_batch-Rows p [] e q = (tt, subst (All Rows) (sym e) tt)
take_batch-Rows p (b ∷ bs) e q = q

pub work_step-Rows :
    (p : Pipeline) (a : Answers) (w : Work)
    → RowsWork w
    → All Rows p.queue
    → RowsWork (work_step p a w).1 × All Rows (work_step p a w).0.queue
unfolding work_step after_persist release_tenant_slot
work_step-Rows p a idle h q = take_batch-Rows p p.queue refl q
work_step-Rows p a (persisting b) h q =
    let line = subst (All Rows) (sym (persist-queue p b a)) q in ground arith
work_step-Rows p a (releasing_slot b) h q = ground arith
work_step-Rows p a (releasing_bytes b) h q = ground arith
work_step-Rows p a (finishing b) h q = ground arith
