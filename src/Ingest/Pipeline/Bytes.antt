-- ===== src/Ingest/Pipeline/Bytes.antt =====
-- pipeline.go: `inFlightBytes` is what the calls, the channel and the workers hold, and what is
-- past the test on the new total stays within the cap.
use otelcontext.Base.{
  ℕ, ◌+◌, ◌-◌, ◌≤◌, ◌≡◌, refl, ap, inl, inr, true, false, List, [], ◌∷◌, arith, get_elem?,
  Option-cases,
}
use otelcontext.Ingest.Pipeline.{
  Pipeline, Batch, Call, Phase, entering, claiming, charging, sending, undoing, releasing, returned,
  bytes_full, channel_full, submit_step, enter, claim, charge, send, undo, count_refusal,
  release_tenant_slot,
}
use otelcontext.Ingest.Pipeline.Processing.{
  Work, idle, persisting, releasing_slot, releasing_bytes, finishing, Answers, committed, failed,
  panicked, work_step, take_batch, persist, written, fail, enqueue_dlq, apply_store_severity,
  after_persist, offer_to_dlq,
}
use otelcontext.Ingest.Pipeline.Schedule.{
  System, Event, arrive, submit, work, offer, step, submit_at, work_at, run, started,
}
use otelcontext.Ingest.Pipeline.Sums.{sum, sum-append, sum-set, le-sum, sum-replicate}

abbrev pub held : Call → ℕ
held c = elim c.phase [
  | sending slot ↦ c.batch.size_bytes
  | undoing slot why ↦ c.batch.size_bytes
  | _ ↦ 0
]

-- The bytes of a call that has passed the test on the new total.
abbrev pub passed : Call → ℕ
passed c = elim c.phase [ sending slot ↦ c.batch.size_bytes | _ ↦ 0 ]

abbrev pub carried : Work → ℕ
carried idle = 0
carried (persisting b) = b.size_bytes
carried (releasing_slot b) = b.size_bytes
carried (releasing_bytes b) = b.size_bytes
carried (finishing b) = 0

abbrev pub queued : Pipeline → ℕ
queued p = sum (λ b. b.size_bytes) p.queue

submit_step-account :
    (p : Pipeline) (b : Batch) (ph : Phase)
    → held (record { batch = b; phase = ph }) ≤ p.in_flight_bytes
    → (submit_step p b ph).0.in_flight_bytes + held (record { batch = b; phase = ph }) + queued p
      ≡ p.in_flight_bytes + held (submit_step p b ph).1 + queued (submit_step p b ph).0
unfolding submit_step enter claim charge send undo release_tenant_slot count_refusal
submit_step-account p b entering h = ground arith
submit_step-account p b claiming h = ground arith
submit_step-account p b (charging slot) h = ground arith
submit_step-account p b (sending slot) h =
    ground (arith, sum-append (λ (x : Batch). x.size_bytes) p.queue (b ∷ []))
submit_step-account p b (undoing true why) h = ground arith
submit_step-account p b (undoing false bytes_full) h = ground arith
submit_step-account p b (undoing false channel_full) h = ground arith
submit_step-account p b (releasing bytes_full) h = ground arith
submit_step-account p b (releasing channel_full) h = ground arith
submit_step-account p b (returned o) h = ground arith

submit_step-bound :
    (p : Pipeline) (b : Batch) (ph : Phase) (rest : ℕ)
    → rest + passed (record { batch = b; phase = ph }) + queued p ≤ p.in_flight_bytes
    → rest + passed (record { batch = b; phase = ph }) + queued p ≤ p.max_bytes
    → rest + passed (submit_step p b ph).1 + queued (submit_step p b ph).0 ≤ p.max_bytes
unfolding submit_step enter claim charge send undo release_tenant_slot count_refusal
submit_step-bound p b entering rest h k = ground arith
submit_step-bound p b claiming rest h k = ground arith
submit_step-bound p b (charging slot) rest h k = ground arith
submit_step-bound p b (sending slot) rest h k =
    ground (arith, sum-append (λ (x : Batch). x.size_bytes) p.queue (b ∷ []))
submit_step-bound p b (undoing true why) rest h k = ground arith
submit_step-bound p b (undoing false bytes_full) rest h k = ground arith
submit_step-bound p b (undoing false channel_full) rest h k = ground arith
submit_step-bound p b (releasing bytes_full) rest h k = ground arith
submit_step-bound p b (releasing channel_full) rest h k = ground arith
submit_step-bound p b (returned o) rest h k = ground arith

submit_step-limits :
    (p : Pipeline) (b : Batch) (ph : Phase) → (submit_step p b ph).0.max_bytes ≡ p.max_bytes
unfolding submit_step enter claim charge send undo release_tenant_slot count_refusal
submit_step-limits p b entering = ground arith
submit_step-limits p b claiming = ground arith
submit_step-limits p b (charging slot) = ground arith
submit_step-limits p b (sending slot) = ground arith
submit_step-limits p b (undoing true why) = ground arith
submit_step-limits p b (undoing false bytes_full) = ground arith
submit_step-limits p b (undoing false channel_full) = ground arith
submit_step-limits p b (releasing bytes_full) = ground arith
submit_step-limits p b (releasing channel_full) = ground arith
submit_step-limits p b (returned o) = ground arith

-- What a worker's answer leaves alone.
persist-frame :
    (p : Pipeline) (b : Batch) (a : Answers)
    → ((persist p b a).in_flight_bytes ≡ p.in_flight_bytes)
      × ((persist p b a).queue ≡ p.queue)
      × ((persist p b a).max_bytes ≡ p.max_bytes)
unfolding persist written fail enqueue_dlq apply_store_severity
persist-frame p b a =
    elim a.write
      as (λ w.
        ((persist p b (record a { write = w })).in_flight_bytes ≡ p.in_flight_bytes)
        × ((persist p b (record a { write = w })).queue ≡ p.queue)
        × ((persist p b (record a { write = w })).max_bytes ≡ p.max_bytes)) [
          | committed ↦ ground arith
          | failed ↦ ground arith
          | panicked ↦ ground arith
        ]

work_step-account :
    (p : Pipeline) (a : Answers) (w : Work)
    → carried w ≤ p.in_flight_bytes
    → (work_step p a w).0.in_flight_bytes + carried w + queued p
      ≡ p.in_flight_bytes + carried (work_step p a w).1 + queued (work_step p a w).0
unfolding work_step take_batch after_persist release_tenant_slot
work_step-account p a idle h = ground arith
work_step-account p a (persisting b) h =
    let (same, line, limit) = persist-frame p b a in
    ground (arith, same, ap (sum (λ (x : Batch). x.size_bytes)) line)
work_step-account p a (releasing_slot b) h = ground arith
work_step-account p a (releasing_bytes b) h = ground arith
work_step-account p a (finishing b) h = ground arith

work_step-bound :
    (p : Pipeline) (a : Answers) (w : Work)
    → (carried (work_step p a w).1 + queued (work_step p a w).0 ≤ carried w + queued p)
      × ((work_step p a w).0.max_bytes ≡ p.max_bytes)
unfolding work_step take_batch after_persist release_tenant_slot
work_step-bound p a idle = ground arith
work_step-bound p a (persisting b) =
    let (same, line, limit) = persist-frame p b a in
    ground (arith, limit, ap (sum (λ (x : Batch). x.size_bytes)) line)
work_step-bound p a (releasing_slot b) = ground arith
work_step-bound p a (releasing_bytes b) = ground arith
work_step-bound p a (finishing b) = ground arith

-- The byte account of a system whose cap is `m`.
pub record Charged (m : ℕ) (s : System) : Type 0 where
  pub cap : s.shared.max_bytes ≡ m
  pub account :
      s.shared.in_flight_bytes ≡ sum held s.calls + queued s.shared + sum carried s.workers
  pub bound : sum passed s.calls + queued s.shared + sum carried s.workers ≤ m

passed-le-held : (cs : List Call) → sum passed cs ≤ sum held cs
passed-le-held [] = omega arith
passed-le-held (c ∷ cs) = ground (arith, passed-le-held cs)

submit_at-Charged :
    {m : ℕ} (s : System) (i : ℕ) → Charged m s → Charged m (submit_at s i (get_elem? s.calls i))
unfolding submit_at
submit_at-Charged s i h = elim (Option-cases (get_elem? s.calls i)) [
  | inl n ↦ rw (n, submit_at) h
  | inr (c, e) ↦
      let c' = (submit_step s.shared c.batch c.phase).1 in
      let rest = sum passed s.calls - passed c + sum carried s.workers in
      let below = le-sum held s.calls i c e in
      let below_passed = le-sum passed s.calls i c e in
      let moved = sum-set held s.calls i c c' e in
      let moved_passed = sum-set passed s.calls i c c' e in
      let within = passed-le-held s.calls in
      let held_now : held c ≤ s.shared.in_flight_bytes = omega (arith, h, below) in
      let account = submit_step-account s.shared c.batch c.phase held_now in
      let low : rest + passed c + queued s.shared ≤ s.shared.in_flight_bytes =
        omega (arith, h, below_passed, within) in
      let capped : rest + passed c + queued s.shared ≤ s.shared.max_bytes =
        omega (arith, h, below_passed) in
      let bound = submit_step-bound s.shared c.batch c.phase rest low capped in
      let limit = submit_step-limits s.shared c.batch c.phase in
      rw (e, submit_at)
        (record {
          cap = omega (arith, h, limit);
          account = omega (arith, h, account, moved, below);
          bound = omega (arith, h, bound, moved_passed, below_passed);
        })
]

work_at-Charged :
    {m : ℕ} (s : System) (i : ℕ) (a : Answers)
    → Charged m s
    → Charged m (work_at s i a (get_elem? s.workers i))
unfolding work_at
work_at-Charged s i a h = elim (Option-cases (get_elem? s.workers i)) [
  | inl n ↦ rw (n, work_at) h
  | inr (w, e) ↦
      let w' = (work_step s.shared a w).1 in
      let below = le-sum carried s.workers i w e in
      let moved = sum-set carried s.workers i w w' e in
      let held_now : carried w ≤ s.shared.in_flight_bytes = omega (arith, h, below) in
      let account = work_step-account s.shared a w held_now in
      let (bound, limit) = work_step-bound s.shared a w in
      rw (e, work_at)
        (record {
          cap = omega (arith, h, limit);
          account = omega (arith, h, account, moved, below);
          bound = omega (arith, h, bound, moved, below);
        })
]

step-Charged : {m : ℕ} (s : System) (e : Event) → Charged m s → Charged m (step s e)
unfolding step offer_to_dlq apply_store_severity enqueue_dlq
step-Charged s (arrive b) h =
    let c : Call = record { batch = b; phase = entering } in
    record {
      cap = h.cap;
      account = omega (arith, h, sum-append held s.calls (c ∷ []));
      bound = omega (arith, h, sum-append passed s.calls (c ∷ []));
    }
step-Charged s (submit i) h = submit_at-Charged s i h
step-Charged s (work i a) h = work_at-Charged s i a h
step-Charged s (offer b accepts) h = ground arith

run-Charged : {m : ℕ} (s : System) (es : List Event) → Charged m s → Charged m (run s es)
unfolding run
run-Charged s [] h = h
run-Charged s (e ∷ es) h = run-Charged (step s e) es (step-Charged s e h)

-- However calls and workers interleave from the start of a pipeline that holds nothing, the bytes
-- in flight are those of the calls between the reservation and its return, of the batches in the
-- channel, and of the workers that have not released them; and without the calls whose
-- reservation is being returned they are within the cap.
pub started-Charged :
    (p : Pipeline) (workers : ℕ) (es : List Event)
    → p.queue ≡ []
    → p.in_flight_bytes ≡ 0
    → Charged p.max_bytes (run (started p workers) es)
started-Charged p workers es empty zero_bytes =
    let none_queued : queued p ≡ 0 = ap (sum (λ (b : Batch). b.size_bytes)) empty in
    let none_carried = sum-replicate carried workers idle refl in
    run-Charged (started p workers) es (record {
      cap = refl;
      account = omega (arith, none_queued, none_carried, zero_bytes);
      bound = omega (arith, none_queued, none_carried);
    })
