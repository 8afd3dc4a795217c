-- ===== src/Aggregate/Key.antt =====
-- internal/aggregate/key.go: the canonical series key, its validation and its binary form.
-- The named `uint8` and `uint32` types are numbers; what they can hold is stated where it matters.
pub mod Codec
pub mod Classes
pub mod Tests
use Prim.Native.String.{String}
use otelcontext.Base.{
  ℕ, zero, suc, ◌+◌, ◌*◌, ◌/◌, ◌%◌, ◌-◌, Bool, ◌&&◌, ◌||◌, Option, none, some, List, [], ◌∷◌, ltb,
  leb, ◌==◌, if◌then◌else◌, ℤ, pos, negsuc, length, ℕ_discrete,
}

abbrev pub signal_unspecified : ℕ
signal_unspecified = 0

abbrev pub signal_trace_op : ℕ
signal_trace_op = 1

abbrev pub signal_service_edge : ℕ
signal_service_edge = 2

abbrev pub signal_log : ℕ
signal_log = 3

abbrev pub signal_metric : ℕ
signal_metric = 4

abbrev pub status_max : ℕ
status_max = 2

abbrev pub severity_tier_max : ℕ
severity_tier_max = 6

abbrev pub http_class_max : ℕ
http_class_max = 5

abbrev pub method_other : ℕ
method_other = 10

abbrev pub span_kind_max : ℕ
span_kind_max = 5

pub record SeriesKey : Type 0 where
  pub tenant_id : ℕ
  pub service_id : ℕ
  pub name_id : ℕ
  pub dims_id : ℕ
  pub signal : ℕ
  pub status_class : ℕ
  pub http_class : ℕ
  pub method : ℕ
  pub variant : ℕ

unfoldable pub key_discrete : Discrete SeriesKey
unfolding ℕ_discrete
key_discrete = hlevel ℕ_discrete

-- The errors of decoding and validation.
pub data KeyError : Type 0 where
  truncated trailing_bytes : KeyError
  version_error : ℕ → ℕ → KeyError
  field_error : String → ℕ → ℕ → KeyError

pub data Result (A : Type 0) : Type 0 where
  ok : A → Result A
  err : KeyError → Result A

signal_valid : ℕ → Bool
signal_valid s = leb signal_trace_op s && leb s signal_metric

unfoldable pub trace_status_from_code : ℤ → ℕ
trace_status_from_code (pos c) = if c == 1 then 1 else if c == 2 then 2 else 0
trace_status_from_code (negsuc c) = 0

unfoldable pub severity_tier_from_number : ℤ → ℕ
severity_tier_from_number (pos sev) = if ltb sev 1 || ltb 24 sev then 0 else (sev - 1) / 4 + 1
severity_tier_from_number (negsuc sev) = 0

unfoldable pub http_class_from_status : ℤ → ℕ
http_class_from_status (pos code) = if ltb code 100 || ltb 599 code then 0 else code / 100
http_class_from_status (negsuc code) = 0

unfoldable pub variant_from_span_kind : ℤ → ℕ
variant_from_span_kind (pos kind) = if ltb span_kind_max kind then 0 else kind
variant_from_span_kind (negsuc kind) = 0

field : String → ℕ → SeriesKey → Option KeyError
field name value k = some (field_error name value k.signal)

require_no_http_identity : SeriesKey → Option KeyError
unfolding field
require_no_http_identity k =
    if ltb 0 k.http_class
    then field "HTTPClass" k.http_class k
    else if ltb 0 k.method
    then field "Method" k.method k
    else none

-- The part of a log's or a metric's validation after its status class.
validate_plain : SeriesKey → Option KeyError
unfolding field require_no_http_identity
validate_plain k = elim (require_no_http_identity k) [
  | some e ↦ some e
  | none ↦ if ltb 0 k.variant then field "Variant" k.variant k else none
]

validate_signal : SeriesKey → Option KeyError
unfolding field validate_plain
validate_signal k =
    if k.signal == signal_trace_op || k.signal == signal_service_edge
    then (if ltb status_max k.status_class
        then field "StatusClass" k.status_class k
        else if ltb span_kind_max k.variant
        then field "Variant" k.variant k
        else none)
    else if k.signal == signal_log
    then (if ltb severity_tier_max k.status_class
        then field "StatusClass" k.status_class k
        else validate_plain k)
    else if k.signal == signal_metric
    then (if ltb 0 k.status_class then field "StatusClass" k.status_class k else validate_plain k)
    else none

-- `none` is Go's nil error.
unfoldable pub validate : SeriesKey → Option KeyError
unfolding field signal_valid validate_signal
validate k =
    if signal_valid k.signal
    then (if ltb http_class_max k.http_class
        then field "HTTPClass" k.http_class k
        else if ltb method_other k.method
        then field "Method" k.method k
        else validate_signal k)
    else field "Signal" k.signal k

abbrev pub series_key_version : ℕ
series_key_version = 1

abbrev pub encoded_series_key_len : ℕ
encoded_series_key_len = 22

-- `binary.LittleEndian.AppendUint32` before the bytes that follow.
abbrev pub uint32_bytes : ℕ → List ℕ → List ℕ
uint32_bytes n rest = (n % 256) ∷ (n / 256 % 256) ∷ (n / 65536 % 256) ∷ (n / 16777216 % 256) ∷ rest

unfoldable pub marshal_binary : SeriesKey → List ℕ
marshal_binary k =
    series_key_version
    ∷ uint32_bytes k.tenant_id (
        uint32_bytes k.service_id (
          uint32_bytes k.name_id (
            uint32_bytes k.dims_id
              (k.signal ∷ k.status_class ∷ k.http_class ∷ k.method ∷ k.variant ∷ []))))

-- `b[i]`; read only below the length.
abbrev pub byte : List ℕ → ℕ → ℕ
byte [] i = 0
byte (x ∷ xs) zero = x
byte (x ∷ xs) (suc i) = byte xs i

-- `binary.LittleEndian.Uint32(b[i:i+4])`
abbrev pub uint32_at : List ℕ → ℕ → ℕ
uint32_at b i = byte b i + 256 * byte b (i + 1) + 65536 * byte b (i + 2) + 16777216 * byte b (i + 3)

unfoldable pub decode_fields : List ℕ → SeriesKey
decode_fields b = record {
  tenant_id = uint32_at b 1;
  service_id = uint32_at b 5;
  name_id = uint32_at b 9;
  dims_id = uint32_at b 13;
  signal = byte b 17;
  status_class = byte b 18;
  http_class = byte b 19;
  method = byte b 20;
  variant = byte b 21;
}

check_key : SeriesKey → Option KeyError → Result SeriesKey
check_key k none = ok k
check_key k (some e) = err e

unfoldable pub decode_series_key : List ℕ → Result SeriesKey
unfolding check_key
decode_series_key b =
    if ltb (length b) encoded_series_key_len
    then err truncated
    else if ltb encoded_series_key_len (length b)
    then err trailing_bytes
    else if byte b 0 == series_key_version
    then check_key (decode_fields b) (validate (decode_fields b))
    else err (version_error (byte b 0) series_key_version)
