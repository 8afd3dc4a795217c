-- ===== src/Ingest/Sampler/Decisions.antt =====
-- sampler.go: the counters agree with the decisions, and which spans are never dropped.
use otelcontext.Base.{
  ℕ, ◌+◌, ◌≡◌, refl, sym, ◌∙◌, ap, ◌⊎◌, inl, inr, Bool, true, false, some, List, [], ◌∷◌, arith,
  Float64, Text, text_discrete, bit, Bool-cases, Option-cases,
}
use otelcontext.Base.Map.{get}
use otelcontext.Ingest.Sampler.{
  TokenBucket, Sampler, should_sample, throttle, settle, bypasses, allow, leb_f, refill,
}

module _ (fl : Float64) (seconds : ℕ → fl.F) (inverse : fl.F → fl.F) where
  open fl use {F, zero_f, one_f}

  -- One call of `ShouldSample`.
  pub record Span : Type 0 where
    pub service : Text
    pub is_error : Bool
    pub duration_ms : F
    pub now : ℕ

  abbrev pub sample : Sampler fl seconds inverse → Span → Sampler fl seconds inverse × Bool
  sample s x = should_sample fl seconds inverse s x.service x.is_error x.duration_ms x.now

  -- The sampler after the spans, and how many of them it let pass.
  pub run : Sampler fl seconds inverse → List Span → Sampler fl seconds inverse × ℕ
  run s [] = (s, 0)
  run s (x ∷ xs) =
      let first = sample s x in let rest = run first.0 xs in (rest.0, bit first.1 + rest.1)

  settle-counts :
      (s : Sampler fl seconds inverse) (service : Text) (r : TokenBucket fl seconds inverse × Bool)
      → ((settle fl seconds inverse s service r).0.total_dropped
            + bit (settle fl seconds inverse s service r).1
          ≡ s.total_dropped + 1)
        × ((settle fl seconds inverse s service r).0.total_seen ≡ s.total_seen)
  unfolding settle
  settle-counts s service (b, true) = (omega arith, refl)
  settle-counts s service (b, false) = (omega arith, refl)

  throttle-counts :
      (s : Sampler fl seconds inverse) (service : Text) (now : ℕ)
      → ((throttle fl seconds inverse s service now).0.total_dropped
            + bit (throttle fl seconds inverse s service now).1
          ≡ s.total_dropped + 1)
        × ((throttle fl seconds inverse s service now).0.total_seen ≡ s.total_seen)
  unfolding throttle
  throttle-counts s service now = elim (Option-cases (get text_discrete service s.buckets)) [
    | inl h ↦ rw (h, throttle) (omega arith, refl)
    | inr (b, h) ↦ rw (h, throttle) (settle-counts s service (allow fl seconds inverse b now))
  ]

  sample-counts :
      (s : Sampler fl seconds inverse) (x : Span)
      → ((sample s x).0.total_dropped + bit (sample s x).1 ≡ s.total_dropped + 1)
        × ((sample s x).0.total_seen ≡ s.total_seen + 1)
  unfolding should_sample
  sample-counts s x =
      let seen = record s { total_seen = s.total_seen + 1 } in
      let t = throttle-counts seen x.service x.now in
      elim (Bool-cases (bypasses fl seconds inverse seen x.is_error x.duration_ms)) [
        | inl h ↦ rw (h, should_sample) (omega arith, refl)
        | inr h ↦ elim (Bool-cases (leb_f fl seconds inverse s.rate zero_f)) [
          | inl z ↦ rw (h, should_sample, z) (omega arith, refl)
          | inr z ↦ rw (h, should_sample, z) t
        ]
      ]

  -- Over any sequence of spans, the spans seen are the spans passed plus the spans dropped.
  pub run_conserves :
      (s : Sampler fl seconds inverse) (xs : List Span)
      → (run s xs).0.total_seen + s.total_dropped
        ≡ s.total_seen + (run s xs).0.total_dropped + (run s xs).1
  unfolding run
  run_conserves s [] = omega arith
  run_conserves s (x ∷ xs) =
      let c = sample-counts s x in
      let r = run_conserves ((sample s x).0) xs in omega (arith, c.0, c.1, r)

  -- Why a bucket may turn a span away.
  abbrev pub Empty : Sampler fl seconds inverse → Text → ℕ → Type 0
  Empty s service now =
      (b : TokenBucket fl seconds inverse) × (get text_discrete service s.buckets ≡ some b)
      × (leb_f fl seconds inverse one_f (refill fl seconds inverse b now) ≡ false)

  throttle-dropped :
      (s : Sampler fl seconds inverse) (service : Text) (now : ℕ)
      → (throttle fl seconds inverse s service now).1 ≡ false
      → Empty s service now
  unfolding throttle settle allow
  throttle-dropped s service now h = elim (Option-cases (get text_discrete service s.buckets)) [
    | inl n ↦ absurd (ground (arith, rw (n, throttle) at h))
    | inr (b, n) ↦
        elim (Bool-cases (leb_f fl seconds inverse one_f (refill fl seconds inverse b now))) [
          | inl t ↦ absurd (ground (arith, n, t, h))
          | inr t ↦ (b, n, t)
        ]
  ]

  -- A span is dropped only if it is no error that is always kept, not slow, the rate is below
  -- one, and the rate is zero or the bucket of its service, which exists, lacks a token.
  pub dropped_only :
      (s : Sampler fl seconds inverse) (x : Span)
      → (sample s x).1 ≡ false
      → (bypasses fl seconds inverse s x.is_error x.duration_ms ≡ false)
        × ((leb_f fl seconds inverse s.rate zero_f ≡ true) ⊎ Empty s x.service x.now)
  unfolding should_sample bypasses
  dropped_only s x h =
      let seen = record s { total_seen = s.total_seen + 1 } in
      elim (Bool-cases (bypasses fl seconds inverse seen x.is_error x.duration_ms)) [
        | inl b ↦ absurd (ground (arith, b, h))
        | inr b ↦ elim (Bool-cases (leb_f fl seconds inverse s.rate zero_f)) [
          | inl z ↦ (b, inl z)
          | inr z ↦
              let same : sample s x ≡ throttle fl seconds inverse seen x.service x.now =
                rw (b, should_sample, z) refl in
              (b, inr (throttle-dropped seen x.service x.now (ap (λ r. r.1) (sym same) ∙ h)))
        ]
      ]
