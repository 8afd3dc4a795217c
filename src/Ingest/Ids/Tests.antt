-- ===== src/Ingest/Ids/Tests.antt =====
-- otlp_ids.go on one good span, one with a zero id, and one bad log record.
use otelcontext.Base.{List, [], ◌∷◌, replicate, Text}
use otelcontext.Ingest.Ids.{Span, ResourceSpans, ResourceLogs, sanitize_trace_request}
use otelcontext.Ingest.Ids.Kept.{Sanitized, sanitize_trace_request-Sanitized}

abbrev span_of : Text → Span Unit Unit Unit Unit Unit
span_of id = record {
  trace_id = replicate 16 1;
  span_id = id;
  parent_span_id = [];
  links = record { trace_id = []; span_id = id; rest = tt } ∷ [];
  rest = tt;
}

abbrev trace_request : List (ResourceSpans Unit Unit Unit Unit Unit)
trace_request =
    record {
      resource = tt;
      scope_spans =
          record { scope = tt; spans = span_of (replicate 8 2) ∷ span_of (replicate 8 0) ∷ [] }
          ∷ [];
    }
    ∷ []

abbrev logs_request : List (ResourceLogs Unit Unit Unit Unit Unit)
logs_request =
    record {
      resource = tt;
      scope_logs =
          record {
            scope = tt;
            log_records = record { trace_id = replicate 3 1; span_id = []; rest = tt } ∷ [];
          }
          ∷ [];
    }
    ∷ []

sanitize_trace_request-Sanitized_example :
    Sanitized Unit Unit Unit Unit Unit trace_request
      (sanitize_trace_request Unit Unit Unit Unit Unit trace_request)
sanitize_trace_request-Sanitized_example =
    sanitize_trace_request-Sanitized Unit Unit Unit Unit Unit trace_request
