-- ===== src/Aggregate/Key/Classes.antt =====
-- key.go: which keys `Validate` accepts, and that the mappings from OTLP values stay among them.
use otelcontext.Base.{ℕ, ◌≤◌, ◌≡◌, ◌↔◌, ◌⊎◌, inl, inr, refl, none, arith, ℤ, pos, negsuc}
use otelcontext.Aggregate.Key.{
  SeriesKey, validate, trace_status_from_code, severity_tier_from_number, http_class_from_status,
  variant_from_span_kind, signal_trace_op, signal_service_edge, signal_log, signal_metric,
  method_other, http_class_max, status_max, severity_tier_max, span_kind_max,
}

-- A span's or an edge's identity: a status and a span kind.
abbrev pub SpanLike : SeriesKey → Type 0
SpanLike k =
    ((k.signal ≡ signal_trace_op) ⊎ (k.signal ≡ signal_service_edge))
    × (k.status_class ≤ status_max)
    × (k.variant ≤ span_kind_max)
    × (k.http_class ≤ http_class_max)
    × (k.method ≤ method_other)

-- No HTTP identity and no span kind.
abbrev pub Plain : SeriesKey → Type 0
Plain k = (k.http_class ≡ 0) × (k.method ≡ 0) × (k.variant ≡ 0)

abbrev pub LogLike : SeriesKey → Type 0
LogLike k = (k.signal ≡ signal_log) × (k.status_class ≤ severity_tier_max) × Plain k

abbrev pub MetricLike : SeriesKey → Type 0
MetricLike k = (k.signal ≡ signal_metric) × (k.status_class ≡ 0) × Plain k

validate_sound : (k : SeriesKey) → validate k ≡ none → SpanLike k ⊎ (LogLike k ⊎ MetricLike k)
unfolding validate
validate_sound k e = ground arith

validate_complete : (k : SeriesKey) → SpanLike k ⊎ (LogLike k ⊎ MetricLike k) → validate k ≡ none
unfolding validate
validate_complete k e = ground arith

-- `Validate` accepts a key exactly when it is a well-formed span, log or metric identity.
pub validate_iff : (k : SeriesKey) → (validate k ≡ none) ↔ (SpanLike k ⊎ (LogLike k ⊎ MetricLike k))
validate_iff k = (validate_sound k, validate_complete k)

trace_status-le : (n : ℤ) → trace_status_from_code n ≤ status_max
unfolding trace_status_from_code
trace_status-le (pos n) = ground arith
trace_status-le (negsuc n) = ground arith

http_class-le : (n : ℤ) → http_class_from_status n ≤ http_class_max
unfolding http_class_from_status
http_class-le (pos n) = ground arith
http_class-le (negsuc n) = ground arith

variant-le : (n : ℤ) → variant_from_span_kind n ≤ span_kind_max
unfolding variant_from_span_kind
variant-le (pos n) = ground arith
variant-le (negsuc n) = ground arith

severity_tier-le : (n : ℤ) → severity_tier_from_number n ≤ severity_tier_max
unfolding severity_tier_from_number
severity_tier-le (pos n) = ground arith
severity_tier-le (negsuc n) = ground arith

-- A span's key with any status code, HTTP code and span kind is valid once its classes have gone
-- through the mappings, whatever the identifiers, for a method of the enumeration.
pub span_key-validate :
    (tenant service name dims method : ℕ) (code status kind : ℤ)
    → method ≤ method_other
    → validate (record {
      tenant_id = tenant;
      service_id = service;
      name_id = name;
      dims_id = dims;
      signal = signal_trace_op;
      status_class = trace_status_from_code code;
      http_class = http_class_from_status status;
      method = method;
      variant = variant_from_span_kind kind;
    })
      ≡ none
span_key-validate tenant service name dims method code status kind h =
    validate_complete _
      (inl (inl refl, trace_status-le code, variant-le kind, http_class-le status, h))

-- A log's key with any severity number is valid once it has gone through the mapping.
pub log_key-validate :
    (tenant service name dims : ℕ) (severity : ℤ)
    → validate (record {
      tenant_id = tenant;
      service_id = service;
      name_id = name;
      dims_id = dims;
      signal = signal_log;
      status_class = severity_tier_from_number severity;
      http_class = 0;
      method = 0;
      variant = 0;
    })
      ≡ none
log_key-validate tenant service name dims severity =
    validate_complete _ (inr (inl (refl, severity_tier-le severity, (refl, refl, refl))))
