-- ===== src/Aggregate/Key/Tests.antt =====
-- key.go: the codec and the validation at a concrete span key.
use otelcontext.Base.{ℕ, ◌≡◌, refl, ◌↔◌, ◌⊎◌, none, List, [], ◌∷◌, arith}
use otelcontext.Aggregate.Key.{
  SeriesKey, ok, validate, marshal_binary, decode_series_key, decode_fields,
}
use otelcontext.Aggregate.Key.Codec.{decode-marshal, marshal-decode}
use otelcontext.Aggregate.Key.Classes.{SpanLike, LogLike, MetricLike, validate_iff}

abbrev span : SeriesKey
span = record {
  tenant_id = 70000;
  service_id = 2;
  name_id = 300;
  dims_id = 0;
  signal = 1;
  status_class = 2;
  http_class = 5;
  method = 1;
  variant = 2;
}

abbrev span_bytes : List ℕ
span_bytes =
    1 ∷ 112 ∷ 17 ∷ 1 ∷ 0 ∷ 2 ∷ 0 ∷ 0 ∷ 0 ∷ 44 ∷ 1 ∷ 0 ∷ 0 ∷ 0 ∷ 0 ∷ 0 ∷ 0 ∷ 1 ∷ 2 ∷ 5 ∷ 1 ∷ 2 ∷ []

marshal_binary-span : marshal_binary span ≡ span_bytes
unfolding marshal_binary
marshal_binary-span = refl

decode-marshal_example : decode_series_key (marshal_binary span) ≡ ok span
unfolding validate
decode-marshal_example = decode-marshal span (omega arith) refl

marshal-decode_example : (marshal_binary span ≡ span_bytes) × (validate span ≡ none)
unfolding decode_series_key validate decode_fields
marshal-decode_example = marshal-decode span_bytes span (omega arith) refl

validate_iff_example : (validate span ≡ none) ↔ (SpanLike span ⊎ (LogLike span ⊎ MetricLike span))
validate_iff_example = validate_iff span
