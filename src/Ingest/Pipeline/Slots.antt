-- ===== src/Ingest/Pipeline/Slots.antt =====
-- pipeline.go: what one step of a call or of a worker does to the slots of a tenant. Balance
-- follows them over runs.
pub mod Balance
use otelcontext.Base.{
  ℕ, zero, suc, ◌+◌, ◌-◌, ◌≤◌, ◌<◌, ◌≡◌, refl, sym, ap, ◌∙◌, inl, inr, Bool, true, false, not, ◌&&◌,
  Option, none, some, List, [], ◌∷◌, ◌++◌, arith, get_elem?, set, replicate, ltb, bit, dec_bool,
  if◌then◌else◌, Option-cases, Bool-cases, length, Text, text_discrete, All, All-get_elem?, All-set,
  All-append,
}
use otelcontext.Base.Map.{at}
use otelcontext.Base.Map.Laws.{get-put, get-delete}
use otelcontext.Base.Map.Counters.{at-incr}
use otelcontext.Ingest.Pipeline.{
  Pipeline, Batch, Call, Phase, entering, claiming, charging, sending, undoing, releasing, returned,
  Refusal, bytes_full, channel_full, submit_step, enter, claim, charge, send, undo, count_refusal,
  release_tenant_slot, takes_slot, priority,
}
use otelcontext.Ingest.Pipeline.Processing.{
  Work, idle, persisting, releasing_slot, releasing_bytes, finishing, Answers, Write, committed,
  failed, panicked, work_step, take_batch, persist, written, fail, enqueue_dlq,
  apply_store_severity, after_persist, offer_to_dlq,
}
use otelcontext.Ingest.Pipeline.Schedule.{
  System, Event, arrive, submit, work, offer, step, submit_at, work_at, run, started,
}
use otelcontext.Ingest.Pipeline.Sums.{sum, sum-append, sum-set, le-sum, sum-replicate}

abbrev pub of_tenant : Text → Batch → ℕ
of_tenant t b = bit (dec_bool (text_discrete b.tenant t))

-- A healthy batch of the tenant.
pub healthy : Text → Batch → ℕ
healthy t b = if priority b then 0 else of_tenant t b

abbrev pub held : Text → Call → ℕ
held t c = elim c.phase [
  | charging slot ↦ if slot then of_tenant t c.batch else 0
  | sending slot ↦ if slot then of_tenant t c.batch else 0
  | undoing slot why ↦ if slot then of_tenant t c.batch else 0
  | releasing why ↦ of_tenant t c.batch
  | _ ↦ 0
]

abbrev pub carried : Text → Work → ℕ
carried t idle = 0
carried t (persisting b) = healthy t b
carried t (releasing_slot b) = healthy t b
carried t (releasing_bytes b) = 0
carried t (finishing b) = 0

-- The flag of a call says whether its batch takes a slot.
abbrev pub Honest : ℕ → Call → Type 0
Honest k c = elim c.phase [
  | charging slot ↦ slot ≡ (ltb 0 k && ltb 0 (length c.batch.tenant) && not (priority c.batch))
  | sending slot ↦ slot ≡ (ltb 0 k && ltb 0 (length c.batch.tenant) && not (priority c.batch))
  | undoing slot why ↦ slot ≡ (ltb 0 k && ltb 0 (length c.batch.tenant) && not (priority c.batch))
  | releasing why ↦ true ≡ (ltb 0 k && ltb 0 (length c.batch.tenant) && not (priority c.batch))
  | _ ↦ Unit {0}
]

-- A worker that releases a slot has a healthy batch.
abbrev pub Healthy : Work → Type 0
Healthy (releasing_slot b) = priority b ≡ false
Healthy w = Unit {0}

release-at :
    (p : Pipeline) (t tenant : Text)
    → 0 < p.per_tenant_cap
    → 0 < length t
    → at text_discrete t (release_tenant_slot p tenant).tenant_in_flight
      ≡ at text_discrete t p.tenant_in_flight - bit (dec_bool (text_discrete tenant t))
unfolding release_tenant_slot
release-at p t tenant h k =
    let n = at text_discrete tenant p.tenant_in_flight - 1 in
    let written = get-put text_discrete t tenant n p.tenant_in_flight in
    let removed = get-delete text_discrete t tenant p.tenant_in_flight in
    elim (text_discrete tenant t) [
      | yes e ↦
          let same_length : length tenant ≡ length t = ap length e in
          let same_count : at text_discrete tenant p.tenant_in_flight
              ≡ at text_discrete t p.tenant_in_flight =
            ap (λ x. at text_discrete x p.tenant_in_flight) e in
          ground (arith, written, removed, same_length, same_count, e)
      | no ne ↦ ground (arith, written, removed, ne)
    ]

release-frame :
    (p : Pipeline) (tenant : Text)
    → ((release_tenant_slot p tenant).queue ≡ p.queue)
      × ((release_tenant_slot p tenant).per_tenant_cap ≡ p.per_tenant_cap)
unfolding release_tenant_slot
release-frame p tenant = ground arith

-- One step of a call, on the slots of a tenant.
pub submit_step-slots :
    (p : Pipeline) (t : Text) (b : Batch) (ph : Phase)
    → 0 < p.per_tenant_cap
    → 0 < length t
    → Honest p.per_tenant_cap (record { batch = b; phase = ph })
    → held t (record { batch = b; phase = ph }) ≤ at text_discrete t p.tenant_in_flight
    → at text_discrete t (submit_step p b ph).0.tenant_in_flight
        + held t (record { batch = b; phase = ph })
        + sum (healthy t) p.queue
      ≡ at text_discrete t p.tenant_in_flight
        + held t (submit_step p b ph).1
        + sum (healthy t) (submit_step p b ph).0.queue
unfolding submit_step enter claim charge send undo count_refusal takes_slot healthy
submit_step-slots p t b entering h k g l = ground arith
submit_step-slots p t b claiming h k g l =
    ground (arith, at-incr text_discrete t b.tenant p.tenant_in_flight)
submit_step-slots p t b (charging slot) h k g l = ground arith
submit_step-slots p t b (sending slot) h k g l = elim (text_discrete b.tenant t) [
  | yes e ↦
      let same_length : length b.tenant ≡ length t = ap length e in
      ground (arith, sum-append (healthy t) p.queue (b ∷ []), same_length, e)
  | no ne ↦ ground (arith, sum-append (healthy t) p.queue (b ∷ []), ne)
]
submit_step-slots p t b (undoing true why) h k g l = ground arith
submit_step-slots p t b (undoing false bytes_full) h k g l = ground arith
submit_step-slots p t b (undoing false channel_full) h k g l = ground arith
submit_step-slots p t b (releasing bytes_full) h k g l =
    ground (arith, release-at p t b.tenant h k, ap (sum (healthy t)) (release-frame p b.tenant).0)
submit_step-slots p t b (releasing channel_full) h k g l =
    ground (arith, release-at p t b.tenant h k, ap (sum (healthy t)) (release-frame p b.tenant).0)
submit_step-slots p t b (returned o) h k g l = ground arith

pub submit_step-keeps :
    (p : Pipeline) (b : Batch) (ph : Phase)
    → Honest p.per_tenant_cap (record { batch = b; phase = ph })
    → ((submit_step p b ph).0.per_tenant_cap ≡ p.per_tenant_cap)
      × Honest p.per_tenant_cap (submit_step p b ph).1
unfolding submit_step enter claim charge send undo count_refusal takes_slot release_tenant_slot
submit_step-keeps p b entering g = ground arith
submit_step-keeps p b claiming g = ground arith
submit_step-keeps p b (charging slot) g = ground arith
submit_step-keeps p b (sending slot) g = ground arith
submit_step-keeps p b (undoing true why) g = ground arith
submit_step-keeps p b (undoing false bytes_full) g = ground arith
submit_step-keeps p b (undoing false channel_full) g = ground arith
submit_step-keeps p b (releasing bytes_full) g = ground arith
submit_step-keeps p b (releasing channel_full) g = ground arith
submit_step-keeps p b (returned o) g = ground arith

pub submit_step-limit :
    (p : Pipeline) (t : Text) (b : Batch) (ph : Phase)
    → 0 < p.per_tenant_cap
    → 0 < length t
    → at text_discrete t p.tenant_in_flight ≤ p.per_tenant_cap
    → at text_discrete t (submit_step p b ph).0.tenant_in_flight ≤ p.per_tenant_cap
unfolding submit_step enter claim charge send undo count_refusal
submit_step-limit p t b entering h k l = ground arith
submit_step-limit p t b claiming h k l = elim (text_discrete b.tenant t) [
  | yes e ↦
      let same_count : at text_discrete b.tenant p.tenant_in_flight
          ≡ at text_discrete t p.tenant_in_flight =
        ap (λ x. at text_discrete x p.tenant_in_flight) e in
      ground (arith, at-incr text_discrete t b.tenant p.tenant_in_flight, same_count, e)
  | no ne ↦ ground (arith, at-incr text_discrete t b.tenant p.tenant_in_flight, ne)
]
submit_step-limit p t b (charging slot) h k l = ground arith
submit_step-limit p t b (sending slot) h k l = ground arith
submit_step-limit p t b (undoing true why) h k l = ground arith
submit_step-limit p t b (undoing false bytes_full) h k l = ground arith
submit_step-limit p t b (undoing false channel_full) h k l = ground arith
submit_step-limit p t b (releasing bytes_full) h k l = ground (arith, release-at p t b.tenant h k)
submit_step-limit p t b (releasing channel_full) h k l = ground (arith, release-at p t b.tenant h k)
submit_step-limit p t b (returned o) h k l = ground arith

persist-frame :
    (p : Pipeline) (b : Batch) (a : Answers)
    → ((persist p b a).tenant_in_flight ≡ p.tenant_in_flight)
      × ((persist p b a).queue ≡ p.queue)
      × ((persist p b a).per_tenant_cap ≡ p.per_tenant_cap)
unfolding persist written fail enqueue_dlq apply_store_severity
persist-frame p b a =
    elim a.write
      as (λ w.
        ((persist p b (record a { write = w })).tenant_in_flight ≡ p.tenant_in_flight)
        × ((persist p b (record a { write = w })).queue ≡ p.queue)
        × ((persist p b (record a { write = w })).per_tenant_cap ≡ p.per_tenant_cap)) [
          | committed ↦ ground arith
          | failed ↦ ground arith
          | panicked ↦ ground arith
        ]

pub work_step-slots :
    (p : Pipeline) (t : Text) (a : Answers) (w : Work)
    → 0 < p.per_tenant_cap
    → 0 < length t
    → Healthy w
    → carried t w ≤ at text_discrete t p.tenant_in_flight
    → at text_discrete t (work_step p a w).0.tenant_in_flight
        + carried t w
        + sum (healthy t) p.queue
      ≡ at text_discrete t p.tenant_in_flight
        + carried t (work_step p a w).1
        + sum (healthy t) (work_step p a w).0.queue
unfolding work_step take_batch after_persist healthy
work_step-slots p t a idle h k g l = ground arith
work_step-slots p t a (persisting b) h k g l =
    let (same, line, limit) = persist-frame p b a in
    ground (arith, ap (at text_discrete t) same, ap (sum (healthy t)) line)
work_step-slots p t a (releasing_slot b) h k g l =
    ground (arith, release-at p t b.tenant h k, ap (sum (healthy t)) (release-frame p b.tenant).0)
work_step-slots p t a (releasing_bytes b) h k g l = ground arith
work_step-slots p t a (finishing b) h k g l = ground arith

pub work_step-keeps :
    (p : Pipeline) (a : Answers) (w : Work)
    → ((work_step p a w).0.per_tenant_cap ≡ p.per_tenant_cap) × Healthy (work_step p a w).1
unfolding work_step take_batch after_persist
work_step-keeps p a idle = ground arith
work_step-keeps p a (persisting b) = ground (arith, (persist-frame p b a).2)
work_step-keeps p a (releasing_slot b) = ground (arith, (release-frame p b.tenant).1)
work_step-keeps p a (releasing_bytes b) = ground arith
work_step-keeps p a (finishing b) = ground arith

pub work_step-limit :
    (p : Pipeline) (t : Text) (a : Answers) (w : Work)
    → 0 < p.per_tenant_cap
    → 0 < length t
    → at text_discrete t (work_step p a w).0.tenant_in_flight
      ≤ at text_discrete t p.tenant_in_flight
unfolding work_step take_batch after_persist
work_step-limit p t a idle h k = ground arith
work_step-limit p t a (persisting b) h k =
    ground (arith, ap (at text_discrete t) (persist-frame p b a).0)
work_step-limit p t a (releasing_slot b) h k = ground (arith, release-at p t b.tenant h k)
work_step-limit p t a (releasing_bytes b) h k = ground arith
work_step-limit p t a (finishing b) h k = ground arith
