-- ===== src/Aggregate/Engine/Samples.antt =====
-- Values for the tests of the engine and the writer: a service with a budget of one operation.
use otelcontext.Base.{ℕ, some, [], ◌∷◌, pos}
use otelcontext.Base.Samples.{whole_float}
use otelcontext.Aggregate.Budget.{LimiterConfig}
use otelcontext.Aggregate.Limiter.{SeriesWindowKey}
use otelcontext.Aggregate.Delta.{AggregateDelta, empty_delta}
use otelcontext.Aggregate.Engine.{Engine, DeltaMap, new_engine}

abbrev pub small : LimiterConfig whole_float
small = record {
  max_series = pos 10;
  max_series_metrics = pos 2;
  max_series_traces = pos 2;
  max_series_edges = pos 2;
  max_series_logs = pos 2;
  max_series_system = pos 2;
  max_operations_per_service = pos 1;
  max_log_templates_per_service = pos 1;
  max_trace_series_per_service = pos 5;
  max_metric_series_per_service = pos 5;
  series_per_tenant_fraction = 0;
  other_name_id = some (λ t s. 99);
}

abbrev pub span : ℕ → SeriesWindowKey
span name = record {
  key = record {
    tenant_id = 1;
    service_id = 7;
    name_id = name;
    dims_id = 0;
    signal = 1;
    status_class = 1;
    http_class = 0;
    method = 0;
    variant = 2;
  };
  window_start = 300;
}

-- The series that stands for the others of the service.
abbrev pub rest : SeriesWindowKey
rest = record (span 99) { key = record (span 99).key { method = 10; variant = 0 } }

abbrev pub points : ℕ → AggregateDelta whole_float
points n = record (empty_delta whole_float) {
  counts = record { count = n; error_count = 0; request_count = 0; error_request_count = 0 };
}

abbrev pub fresh : Engine whole_float
fresh = new_engine whole_float small (λ t s. 99) (pos 1)

abbrev pub batch : DeltaMap whole_float
batch = (span 5, points 2) ∷ (span 6, points 3) ∷ (span 7, points 4) ∷ []
