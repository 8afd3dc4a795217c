-- ===== src/Aggregate/Budget.antt =====
-- internal/aggregate/cardinality.go: the cardinality budget, its defaults, its caps for a signal
-- and the identity of the series that takes what a cap turns away.
use otelcontext.Base.{
  ℕ, ◌||◌, Option, none, some, ◌==◌, if◌then◌else◌, ℤ, pos, ◌+ℤ◌, ltb_ℤ, is_zero, Float64,
}
use otelcontext.Aggregate.Key.{
  SeriesKey, signal_trace_op, signal_service_edge, signal_log, signal_metric, method_other,
}

pub data OverflowReason : Type 0 where
  tenant service_names service_series signal_full global : OverflowReason

unfoldable pub reason_discrete : Discrete OverflowReason
reason_discrete = hlevel

-- `DefaultMax...`
abbrev pub default_cap : ℤ → ℕ → ℤ
default_cap c n = if is_zero c then pos n else c

module _ (fl : Float64) where
  open fl use {F, zero_f, one_f, mul_f, ltb_f, of_int, to_int}

  pub record LimiterConfig : Type 0 where
    pub max_series : ℤ
    pub max_series_metrics : ℤ
    pub max_series_traces : ℤ
    pub max_series_edges : ℤ
    pub max_series_logs : ℤ
    pub max_series_system : ℤ
    pub max_operations_per_service : ℤ
    pub max_log_templates_per_service : ℤ
    pub max_trace_series_per_service : ℤ
    pub max_metric_series_per_service : ℤ
    pub series_per_tenant_fraction : F
    -- nil or a lookup in the dictionary, which the limiter does not own
    pub other_name_id : Option (ℕ → ℕ → ℕ)

  -- The two ways in which a budget cannot hold; `none` is the nil error.
  pub data ConfigError : Type 0 where
    bad_fraction sub_caps_exceed_global : ConfigError

  unfoldable pub validate : LimiterConfig → Option ConfigError
  validate c =
      if ltb_f c.series_per_tenant_fraction zero_f || ltb_f one_f c.series_per_tenant_fraction
      then some bad_fraction
      else if ltb_ℤ c.max_series (
          c.max_series_metrics +ℤ c.max_series_traces +ℤ c.max_series_edges +ℤ c.max_series_logs
          +ℤ c.max_series_system)
      then some sub_caps_exceed_global
      else none

  unfoldable pub with_defaults : LimiterConfig → LimiterConfig
  with_defaults c = record {
    max_series = default_cap c.max_series 6000;
    max_series_metrics = default_cap c.max_series_metrics 2400;
    max_series_traces = default_cap c.max_series_traces 2400;
    max_series_edges = default_cap c.max_series_edges 500;
    max_series_logs = default_cap c.max_series_logs 500;
    max_series_system = default_cap c.max_series_system 200;
    max_operations_per_service = default_cap c.max_operations_per_service 20;
    max_log_templates_per_service = default_cap c.max_log_templates_per_service 10;
    max_trace_series_per_service = default_cap c.max_trace_series_per_service 50;
    max_metric_series_per_service = default_cap c.max_metric_series_per_service 50;
    series_per_tenant_fraction = c.series_per_tenant_fraction;
    other_name_id = c.other_name_id;
  }

  unfoldable pub name_cap : LimiterConfig → ℕ → ℤ
  name_cap c s =
      if s == signal_trace_op || s == signal_service_edge
      then c.max_operations_per_service
      else if s == signal_log
      then c.max_log_templates_per_service
      else pos 0

  unfoldable pub series_cap : LimiterConfig → ℕ → ℤ
  series_cap c s =
      if s == signal_trace_op || s == signal_service_edge
      then c.max_trace_series_per_service
      else if s == signal_metric
      then c.max_metric_series_per_service
      else pos 0

  unfoldable pub signal_cap : LimiterConfig → ℕ → ℤ
  signal_cap c s =
      if s == signal_trace_op
      then c.max_series_traces
      else if s == signal_service_edge
      then c.max_series_edges
      else if s == signal_log
      then c.max_series_logs
      else if s == signal_metric
      then c.max_series_metrics
      else c.max_series_system

  -- `int(fraction * float64(MaxSeries))`, raised to 1
  unfoldable pub tenant_limit : LimiterConfig → ℤ
  tenant_limit c =
      let limit = to_int (mul_f c.series_per_tenant_fraction (of_int c.max_series)) in
      if ltb_ℤ limit (pos 1) then pos 1 else limit

  overflow_method : SeriesKey → ℕ
  overflow_method key =
      if key.signal == signal_trace_op || key.signal == signal_service_edge then method_other else 0

  overflow_name : LimiterConfig → SeriesKey → ℕ
  overflow_name c key = elim c.other_name_id [ none ↦ 0 | some f ↦ f key.tenant_id key.signal ]

  unfoldable pub overflow_key : LimiterConfig → SeriesKey → SeriesKey
  unfolding overflow_name overflow_method
  overflow_key c key = record {
    tenant_id = key.tenant_id;
    service_id = key.service_id;
    name_id = overflow_name c key;
    dims_id = 0;
    signal = key.signal;
    status_class = key.status_class;
    http_class = 0;
    method = overflow_method key;
    variant = 0;
  }
