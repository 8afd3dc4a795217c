-- ===== src/Ingest/Pipeline/Slots/Balance.antt =====
-- pipeline.go: over every interleaving the slots of a tenant are what its healthy batches hold, and
-- never more than the cap.
use otelcontext.Base.{
  ℕ, zero, suc, ◌+◌, ◌≤◌, ◌<◌, ◌≡◌, refl, sym, subst, ap, ◌∙◌, inl, inr, List, [], ◌∷◌, arith,
  get_elem?, replicate, Option-cases, length, Text, text_discrete, All, All-get_elem?, All-set,
  All-append,
}
use otelcontext.Base.Map.{at, get}
use otelcontext.Ingest.Pipeline.{Pipeline, Call, entering, submit_step}
use otelcontext.Ingest.Pipeline.Processing.{
  idle, Answers, work_step, enqueue_dlq, apply_store_severity, offer_to_dlq,
}
use otelcontext.Ingest.Pipeline.Schedule.{
  System, Event, arrive, submit, work, offer, step, submit_at, work_at, run, started,
}
use otelcontext.Ingest.Pipeline.Sums.{sum, sum-append, sum-set, le-sum, sum-replicate}
use otelcontext.Ingest.Pipeline.Slots.{
  healthy, held, carried, Honest, Healthy, submit_step-slots, submit_step-keeps, submit_step-limit,
  work_step-slots, work_step-keeps, work_step-limit,
}

-- The slots of the tenant `t` under the cap `k`.
pub record Balanced (k : ℕ) (t : Text) (s : System) : Type 0 where
  pub cap : s.shared.per_tenant_cap ≡ k
  pub honest : All (Honest k) s.calls
  pub sound : All Healthy s.workers
  pub account :
      at text_discrete t s.shared.tenant_in_flight
      ≡ sum (held t) s.calls + sum (healthy t) s.shared.queue + sum (carried t) s.workers
  pub limit : at text_discrete t s.shared.tenant_in_flight ≤ k

module _ (k : ℕ) (t : Text) (set_cap : 0 < k) (named : 0 < length t) where
  submit_at-Balanced :
      (s : System) (i : ℕ) → Balanced k t s → Balanced k t (submit_at s i (get_elem? s.calls i))
  unfolding submit_at
  submit_at-Balanced s i h = elim (Option-cases (get_elem? s.calls i)) [
    | inl n ↦ rw (n, submit_at) h
    | inr (c, e) ↦
        let c' = (submit_step s.shared c.batch c.phase).1 in
        let below = le-sum (held t) s.calls i c e in
        let moved = sum-set (held t) s.calls i c c' e in
        let pos : 0 < s.shared.per_tenant_cap = omega (arith, h.cap, set_cap) in
        let honest_call : Honest s.shared.per_tenant_cap c =
          subst (λ n. Honest n c) (sym h.cap) (All-get_elem? (Honest k) s.calls i c h.honest e) in
        let held_now : held t c ≤ at text_discrete t s.shared.tenant_in_flight =
          omega (arith, h.account, below) in
        let account = submit_step-slots s.shared t c.batch c.phase pos named honest_call held_now in
        let (same, honest_after) = submit_step-keeps s.shared c.batch c.phase honest_call in
        let within =
          submit_step-limit s.shared t c.batch c.phase pos named (omega (arith, h.limit, h.cap)) in
        rw (e, submit_at)
          (record {
            cap = same ∙ h.cap;
            honest =
                All-set (Honest k) s.calls i c' h.honest
                  (subst (λ n. Honest n c') h.cap honest_after);
            sound = h.sound;
            account = omega (arith, h.account, account, moved, below);
            limit = omega (arith, within, h.cap);
          })
  ]

  work_at-Balanced :
      (s : System) (i : ℕ) (a : Answers)
      → Balanced k t s
      → Balanced k t (work_at s i a (get_elem? s.workers i))
  unfolding work_at
  work_at-Balanced s i a h = elim (Option-cases (get_elem? s.workers i)) [
    | inl n ↦ rw (n, work_at) h
    | inr (w, e) ↦
        let w' = (work_step s.shared a w).1 in
        let below = le-sum (carried t) s.workers i w e in
        let moved = sum-set (carried t) s.workers i w w' e in
        let pos : 0 < s.shared.per_tenant_cap = omega (arith, h.cap, set_cap) in
        let sound_now = All-get_elem? Healthy s.workers i w h.sound e in
        let held_now : carried t w ≤ at text_discrete t s.shared.tenant_in_flight =
          omega (arith, h.account, below) in
        let account = work_step-slots s.shared t a w pos named sound_now held_now in
        let (same, sound_after) = work_step-keeps s.shared a w in
        rw (e, work_at)
          (record {
            cap = same ∙ h.cap;
            honest = h.honest;
            sound = All-set Healthy s.workers i w' h.sound sound_after;
            account = omega (arith, h.account, account, moved, below);
            limit = omega (arith, h.limit, work_step-limit s.shared t a w pos named);
          })
  ]

  step-Balanced : (s : System) (e : Event) → Balanced k t s → Balanced k t (step s e)
  unfolding step offer_to_dlq apply_store_severity enqueue_dlq
  step-Balanced s (arrive b) h =
      let c : Call = record { batch = b; phase = entering } in
      record {
        cap = h.cap;
        honest = All-append (Honest k) s.calls (c ∷ []) h.honest (tt, tt);
        sound = h.sound;
        account = omega (arith, h.account, sum-append (held t) s.calls (c ∷ []));
        limit = h.limit;
      }
  step-Balanced s (submit i) h = submit_at-Balanced s i h
  step-Balanced s (work i a) h = work_at-Balanced s i a h
  step-Balanced s (offer b accepts) h = ground arith

  run-Balanced : (s : System) (es : List Event) → Balanced k t s → Balanced k t (run s es)
  unfolding run
  run-Balanced s [] h = h
  run-Balanced s (e ∷ es) h = run-Balanced (step s e) es (step-Balanced s e h)

replicate-Healthy : (n : ℕ) → All Healthy (replicate n idle)
replicate-Healthy zero = tt
replicate-Healthy (suc n) = (tt, replicate-Healthy n)

-- However calls and workers interleave from the start of a pipeline that holds nothing, with a cap
-- per tenant that is set: the slots of a named tenant are what the calls and workers hold for its
-- healthy batches, with those in the channel, and they never exceed the cap.
pub started-Balanced :
    (p : Pipeline) (workers : ℕ) (es : List Event) (t : Text)
    → 0 < p.per_tenant_cap
    → 0 < length t
    → p.queue ≡ []
    → p.tenant_in_flight ≡ []
    → Balanced p.per_tenant_cap t (run (started p workers) es)
unfolding get
started-Balanced p workers es t h k empty none_held =
    let none_queued : sum (healthy t) p.queue ≡ 0 = ap (sum (healthy t)) empty in
    let none_carried = sum-replicate (carried t) workers idle refl in
    let no_slots : at text_discrete t p.tenant_in_flight ≡ 0 = ap (at text_discrete t) none_held in
    run-Balanced p.per_tenant_cap t h k (started p workers) es (record {
      cap = refl;
      honest = tt;
      sound = replicate-Healthy workers;
      account = omega (arith, none_queued, none_carried, no_slots);
      limit = omega (arith, no_slots);
    })
