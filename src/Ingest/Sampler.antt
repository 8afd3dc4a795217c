-- ===== src/Ingest/Sampler.antt =====
-- internal/ingest/sampler.go: which spans are kept. The clock's reading is an argument in
-- nanoseconds; `Duration.Seconds` is the parameter `seconds`, and `1.0 / rate` the parameter
-- `inverse`, both arithmetic on `float64`.
pub mod Decisions
mod Tests
use otelcontext.Base.{
  ℕ, ◌+◌, ◌-◌, Bool, true, false, not, ◌&&◌, ◌||◌, Option, none, some, [], if◌then◌else◌, Float64,
  Text, text_discrete,
}
use otelcontext.Base.Map.{Map, get, put}

module _ (fl : Float64) (seconds : ℕ → fl.F) (inverse : fl.F → fl.F) where
  open fl use {F, zero_f, one_f, add_f, sub_f, mul_f, ltb_f, eqb_f}

  -- `a <= b` on floats; false if one is not a number.
  unfoldable pub leb_f : F → F → Bool
  leb_f a b = ltb_f a b || eqb_f a b

  pub record TokenBucket : Type 0 where
    pub rate : F
    pub capacity : F
    pub tokens : F
    pub last_tick : ℕ

  pub new_token_bucket : F → ℕ → TokenBucket
  new_token_bucket rate now =
      let capacity = if ltb_f (inverse rate) one_f then one_f else inverse rate in
      record { rate = rate; capacity = capacity; tokens = capacity; last_tick = now }

  -- The tokens after the refill. The clock is monotonic, so the elapsed time is not negative.
  unfoldable pub refill : TokenBucket → ℕ → F
  refill b now =
      let tokens = add_f b.tokens (mul_f (seconds (now - b.last_tick)) b.rate) in
      if ltb_f b.capacity tokens then b.capacity else tokens

  unfoldable pub allow : TokenBucket → ℕ → TokenBucket × Bool
  allow b now =
      let tokens = refill b now in
      if leb_f one_f tokens
      then (record b { last_tick = now; tokens = sub_f tokens one_f }, true)
      else (record b { last_tick = now; tokens = tokens }, false)

  pub record Sampler : Type 0 where
    pub rate : F
    pub always_on_errors : Bool
    pub latency_threshold_ms : F
    pub buckets : Map Text TokenBucket
    pub total_seen : ℕ
    pub total_dropped : ℕ

  -- `if rate <= 0 { rate = 0 }; if rate > 1 { rate = 1 }`
  pub clamp_rate : F → F
  clamp_rate rate =
      let r = if leb_f rate zero_f then zero_f else rate in if ltb_f one_f r then one_f else r

  pub new_sampler : F → Bool → F → Sampler
  new_sampler rate always_on_errors latency_threshold_ms = record {
    rate = clamp_rate rate;
    always_on_errors = always_on_errors;
    latency_threshold_ms = latency_threshold_ms;
    buckets = [];
    total_seen = 0;
    total_dropped = 0;
  }

  -- The count of the drops, at the end of `ShouldSample`.
  pub settle : Sampler → Text → TokenBucket × Bool → Sampler × Bool
  settle s service r =
      let kept = record s { buckets = put text_discrete service r.0 s.buckets } in
      if r.1 then (kept, true) else (record kept { total_dropped = kept.total_dropped + 1 }, false)

  pub throttle : Sampler → Text → ℕ → Sampler × Bool
  throttle s service now = elim (get text_discrete service s.buckets) [
    | none ↦ (
      record s { buckets = put text_discrete service (new_token_bucket s.rate now) s.buckets },
      true,
    )
    | some b ↦ settle s service (allow b now)
  ]

  -- The spans that pass before any bucket is asked.
  pub bypasses : Sampler → Bool → F → Bool
  bypasses s is_error duration_ms =
      (s.always_on_errors && is_error)
      || (leb_f s.latency_threshold_ms duration_ms || leb_f one_f s.rate)

  pub should_sample : Sampler → Text → Bool → F → ℕ → Sampler × Bool
  should_sample s service is_error duration_ms now =
      let seen = record s { total_seen = s.total_seen + 1 } in
      if bypasses seen is_error duration_ms
      then (seen, true)
      else if leb_f seen.rate zero_f
      then (record seen { total_dropped = seen.total_dropped + 1 }, false)
      else throttle seen service now
