-- ===== src/Ingest/Pipeline/Flow/Conservation.antt =====
-- pipeline.go: over every interleaving each batch is accounted for, from its `Submit` to its end.
use otelcontext.Base.{
  ℕ, zero, suc, ◌+◌, ◌≤◌, ◌≡◌, refl, sym, subst, ap, inl, inr, Bool, List, [], ◌∷◌, arith,
  get_elem?, replicate, Option-cases, length, length-append, Text, All, All-get_elem?, All-set,
  All-append, Float64, ℤ,
}
use otelcontext.Ingest.Pipeline.{
  Pipeline, PipelineConfig, Batch, Call, entering, submit_step, new_pipeline, set_per_tenant_cap,
  set_store_min_severity, set_dlq,
}
use otelcontext.Ingest.Pipeline.Processing.{
  idle, Answers, work_step, enqueue_dlq, apply_store_severity, offer_to_dlq, payload, gated,
}
use otelcontext.Ingest.Pipeline.Schedule.{
  System, Event, arrive, submit, work, offer, step, submit_at, work_at, run, started,
}
use otelcontext.Ingest.Pipeline.Sums.{sum, sum-append, sum-set, sum-replicate}
use otelcontext.Ingest.Pipeline.Flow.{
  Rows, RowsCall, RowsWork, answered_enqueued, answered_soft, answered_full, busy, answered,
  submit_step-Counted, submit_step-Rows, work_step-Worked, work_step-Rows,
}

-- A pipeline that has not run.
pub record Fresh (p : Pipeline) : Type 0 where
  pub queue : p.queue ≡ []
  pub slots : p.tenant_in_flight ≡ []
  pub bytes : p.in_flight_bytes ≡ 0
  pub enqueued : p.enqueued_total ≡ 0
  pub processed : p.processed_total ≡ 0
  pub healthy : p.dropped_healthy ≡ 0
  pub tenant : p.tenant_dropped ≡ 0
  pub full : p.rejected_full ≡ 0
  pub bytes_full : p.rejected_bytes ≡ 0
  pub failures : p.process_failures ≡ 0
  pub persisted : p.persisted ≡ []
  pub letters : p.dead_letters ≡ []
  pub deferred : p.dlq_enqueued ≡ 0

pub new_pipeline-Fresh :
    (fl : Float64) (rank : Text → ℕ) (threshold : fl.F) (cfg : PipelineConfig fl.F) (cap level : ℤ)
    → Fresh (
        set_dlq (
          set_store_min_severity
            (set_per_tenant_cap (new_pipeline fl rank threshold cfg) cap)
            level))
unfolding new_pipeline set_per_tenant_cap set_store_min_severity set_dlq
new_pipeline-Fresh fl rank threshold cfg cap level = record {
  queue = refl;
  slots = refl;
  bytes = refl;
  enqueued = refl;
  processed = refl;
  healthy = refl;
  tenant = refl;
  full = refl;
  bytes_full = refl;
  failures = refl;
  persisted = refl;
  letters = refl;
  deferred = refl;
}

pub record Conserved (s : System) : Type 0 where
  pub call_rows : All RowsCall s.calls
  pub queue_rows : All Rows s.shared.queue
  pub work_rows : All RowsWork s.workers
  -- the channel holds no more than its capacity
  pub depth : length s.shared.queue ≤ s.shared.capacity
  -- an accepted batch waits, is being worked on, or is processed
  pub flow :
      s.shared.enqueued_total
      ≡ length s.shared.queue + sum busy s.workers + s.shared.processed_total
  -- a processed batch is in the database or is counted as a failure
  pub fate :
      s.shared.processed_total + sum answered s.workers
      ≤ length s.shared.persisted + s.shared.process_failures
  -- the envelopes that the dead letter queue took are those that are counted
  pub letters : length s.shared.dead_letters ≡ s.shared.dlq_enqueued
  -- the answers of `Submit` are those that are counted
  pub enqueues : sum answered_enqueued s.calls ≡ s.shared.enqueued_total
  pub softs : sum answered_soft s.calls ≡ s.shared.dropped_healthy + s.shared.tenant_dropped
  pub fulls : sum answered_full s.calls ≡ s.shared.rejected_full + s.shared.rejected_bytes

submit_at-Conserved :
    (s : System) (i : ℕ) → Conserved s → Conserved (submit_at s i (get_elem? s.calls i))
unfolding submit_at
submit_at-Conserved s i h = elim (Option-cases (get_elem? s.calls i)) [
  | inl n ↦ rw (n, submit_at) h
  | inr (c, e) ↦
      let c' = (submit_step s.shared c.batch c.phase).1 in
      let row = All-get_elem? RowsCall s.calls i c h.call_rows e in
      let k = submit_step-Counted s.shared c.batch c.phase row in
      let (row', queue') = submit_step-Rows s.shared c.batch c.phase row h.queue_rows in
      let moved_enqueued = sum-set answered_enqueued s.calls i c c' e in
      let moved_soft = sum-set answered_soft s.calls i c c' e in
      let moved_full = sum-set answered_full s.calls i c c' e in
      rw (e, submit_at)
        (record {
          call_rows = All-set RowsCall s.calls i c' h.call_rows row';
          queue_rows = queue';
          work_rows = h.work_rows;
          depth = omega (arith, k.depth h.depth, k.capacity);
          flow = omega (arith, h.flow, k.taken, k.processed);
          fate = omega (arith, h.fate, k.processed, k.persisted, k.failures);
          letters = omega (arith, h.letters, k.letters, k.deferred);
          enqueues = omega (arith, h.enqueues, k.enqueues, moved_enqueued);
          softs = omega (arith, h.softs, k.softs, moved_soft);
          fulls = omega (arith, h.fulls, k.fulls, moved_full);
        })
]

work_at-Conserved :
    (s : System) (i : ℕ) (a : Answers)
    → Conserved s
    → Conserved (work_at s i a (get_elem? s.workers i))
unfolding work_at
work_at-Conserved s i a h = elim (Option-cases (get_elem? s.workers i)) [
  | inl n ↦ rw (n, work_at) h
  | inr (w, e) ↦
      let w' = (work_step s.shared a w).1 in
      let row = All-get_elem? RowsWork s.workers i w h.work_rows e in
      let k = work_step-Worked s.shared a w row in
      let (row', queue') = work_step-Rows s.shared a w row h.queue_rows in
      let moved_busy = sum-set busy s.workers i w w' e in
      let moved_answered = sum-set answered s.workers i w w' e in
      rw (e, work_at)
        (record {
          call_rows = h.call_rows;
          queue_rows = queue';
          work_rows = All-set RowsWork s.workers i w' h.work_rows row';
          depth = omega (arith, h.depth, k.shorter, k.capacity);
          flow = omega (arith, h.flow, k.flow, k.enqueues, moved_busy);
          fate = omega (arith, h.fate, k.fate, moved_answered);
          letters = omega (arith, h.letters, k.letters);
          enqueues = omega (arith, h.enqueues, k.enqueues);
          softs = omega (arith, h.softs, k.softs);
          fulls = omega (arith, h.fulls, k.fulls);
        })
]

offer-Conserved :
    (s : System) (b : Batch) (accepts : Bool) → Conserved s → Conserved (step s (offer b accepts))
unfolding step offer_to_dlq apply_store_severity enqueue_dlq
offer-Conserved s b accepts h =
    let more = length-append {0} s.shared.dead_letters (payload b (gated s.shared b.logs) ∷ []) in
    ground (
      arith, more, h.call_rows, h.queue_rows, h.work_rows, h.depth, h.flow, h.fate, h.letters,
      h.enqueues, h.softs, h.fulls,
    )

step-Conserved : (s : System) (e : Event) → Conserved s → Conserved (step s e)
unfolding step
step-Conserved s (arrive b) h =
    let c : Call = record { batch = b; phase = entering } in
    record {
      call_rows = All-append RowsCall s.calls (c ∷ []) h.call_rows (tt, tt);
      queue_rows = h.queue_rows;
      work_rows = h.work_rows;
      depth = h.depth;
      flow = h.flow;
      fate = h.fate;
      letters = h.letters;
      enqueues = omega (arith, h.enqueues, sum-append answered_enqueued s.calls (c ∷ []));
      softs = omega (arith, h.softs, sum-append answered_soft s.calls (c ∷ []));
      fulls = omega (arith, h.fulls, sum-append answered_full s.calls (c ∷ []));
    }
step-Conserved s (submit i) h = submit_at-Conserved s i h
step-Conserved s (work i a) h = work_at-Conserved s i a h
step-Conserved s (offer b accepts) h = offer-Conserved s b accepts h

run-Conserved : (s : System) (es : List Event) → Conserved s → Conserved (run s es)
unfolding run
run-Conserved s [] h = h
run-Conserved s (e ∷ es) h = run-Conserved (step s e) es (step-Conserved s e h)

replicate-RowsWork : (n : ℕ) → All RowsWork (replicate n idle)
replicate-RowsWork zero = tt
replicate-RowsWork (suc n) = (tt, replicate-RowsWork n)

-- However calls and workers interleave from the start of a pipeline that has not run: the channel
-- never holds more than its capacity; every accepted batch is in the channel, with a worker or
-- processed; every batch that the database has answered for is persisted or counted as a
-- failure; the dead letters are as many as counted; and the answers of `Submit` on batches with
-- rows are, kind by kind, as many as the counters say.
pub started-Conserved :
    (p : Pipeline) (workers : ℕ) (es : List Event)
    → Fresh p
    → Conserved (run (started p workers) es)
started-Conserved p workers es f =
    let no_batches : length p.queue ≡ 0 = ap length f.queue in
    let no_rows : length p.persisted ≡ 0 = ap length f.persisted in
    let no_letters : length p.dead_letters ≡ 0 = ap length f.letters in
    run-Conserved (started p workers) es (record {
      call_rows = tt;
      queue_rows = subst (All Rows) (sym f.queue) tt;
      work_rows = replicate-RowsWork workers;
      depth = omega (arith, no_batches);
      flow =
          omega (arith, no_batches, f.enqueued, f.processed, sum-replicate busy workers idle refl);
      fate = omega (arith, f.processed, sum-replicate answered workers idle refl);
      letters = omega (arith, no_letters, f.deferred);
      enqueues = omega (arith, f.enqueued);
      softs = omega (arith, f.healthy, f.tenant);
      fulls = omega (arith, f.full, f.bytes_full);
    })
