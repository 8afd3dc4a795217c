-- ===== src/Ingest/Sampler/Tests.antt =====
-- sampler.go over whole numbers: one service, a bucket that runs dry.
use otelcontext.Base.{ℕ, ◌+◌, ◌≡◌, true, false, Bool, List, [], ◌∷◌, text}
use otelcontext.Base.Samples.{whole_float}
use otelcontext.Ingest.Sampler.{Sampler}
use otelcontext.Ingest.Sampler.Decisions.{Span, run, run_conserves}

abbrev no_time : ℕ → ℕ
no_time n = 0

abbrev whole : ℕ → ℕ
whole n = 1

-- The rate is zero: what is neither an error nor slow is dropped.
abbrev strict : Sampler whole_float no_time whole
strict = record {
  rate = 0;
  always_on_errors = true;
  latency_threshold_ms = 500;
  buckets = [];
  total_seen = 0;
  total_dropped = 0;
}

abbrev span_of : Bool → ℕ → Span whole_float no_time whole
span_of is_error duration_ms = record {
  service = text "cart";
  is_error = is_error;
  duration_ms = duration_ms;
  now = 3;
}

abbrev spans : List (Span whole_float no_time whole)
spans = span_of true 4 ∷ span_of false 4 ∷ span_of false 900 ∷ []

three_spans :
    (run whole_float no_time whole strict spans).0.total_seen + 0
    ≡ 0
      + (run whole_float no_time whole strict spans).0.total_dropped
      + (run whole_float no_time whole strict spans).1
three_spans = run_conserves whole_float no_time whole strict spans
