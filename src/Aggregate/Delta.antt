-- ===== src/Aggregate/Delta.antt =====
-- internal/aggregate/delta.go: what one request adds to one series in one window. The fields stand
-- in the groups of the source. The sketch is left out: no other field depends on it. The counters
-- that points make by one are taken as unbounded; the population counts, which a client sends, wrap
-- at 2^64. A time is a number of nanoseconds, and 0 is Go's zero time. A flags word is its four
-- bits and its reason byte.
mod Tests
pub mod Groups
pub mod Merging
use otelcontext.Base.{
  ℕ, ◌+◌, ◌%◌, ◌^◌, Bool, true, false, not, ◌&&◌, ◌||◌, List, [], ◌∷◌, ltb, leb, ◌==◌,
  if◌then◌else◌, min, Float64, bit,
}
use otelcontext.Aggregate.Histogram.{
  HistogramFold, SketchDropReason, drop_none, negative_observations, scale_out_of_range,
  no_finite_boundaries,
}

-- The numbering of the reasons.
abbrev pub reason_code : SketchDropReason → ℕ
reason_code drop_none = 0
reason_code negative_observations = 1
reason_code scale_out_of_range = 2
reason_code no_finite_boundaries = 3

pub record HistFlags : Type 0 where
  pub percentiles_unavailable : Bool
  pub unbounded_tail : Bool
  pub has_min : Bool
  pub has_max : Bool
  pub reason : ℕ

unfoldable pub no_flags : HistFlags
no_flags = record {
  percentiles_unavailable = false;
  unbounded_tail = false;
  has_min = false;
  has_max = false;
  reason = 0;
}

-- `flags != 0`
unfoldable pub any_flag : HistFlags → Bool
any_flag f =
    f.percentiles_unavailable || f.unbounded_tail || f.has_min || f.has_max || not (f.reason == 0)

-- The lowest reason other than none.
unfoldable pub merge_reason : ℕ → ℕ → ℕ
merge_reason a b = if a == 0 then b else if not (b == 0) && ltb b a then b else a

unfoldable pub merge_hist_flags : HistFlags → HistFlags → HistFlags
merge_hist_flags a b = record {
  percentiles_unavailable = a.percentiles_unavailable || b.percentiles_unavailable;
  unbounded_tail = a.unbounded_tail || b.unbounded_tail;
  has_min = a.has_min || b.has_min;
  has_max = a.has_max || b.has_max;
  reason = merge_reason a.reason b.reason;
}

-- The log records of a series: their count and the times that bound them.
pub record Logs : Type 0 where
  pub log_count : ℕ
  pub first_timestamp : ℕ
  pub last_timestamp : ℕ

unfoldable pub observe_log_time : Logs → ℕ → Logs
observe_log_time d ts = record {
  log_count = d.log_count + 1;
  first_timestamp =
      if d.first_timestamp == 0 || ltb ts d.first_timestamp then ts else d.first_timestamp;
  last_timestamp = if ltb d.last_timestamp ts then ts else d.last_timestamp;
}

unfoldable pub merge_logs : Logs → Logs → Logs
merge_logs d o = record {
  log_count = d.log_count + o.log_count;
  first_timestamp =
      if not (o.first_timestamp == 0)
        && (d.first_timestamp == 0 || ltb o.first_timestamp d.first_timestamp)
      then o.first_timestamp
      else d.first_timestamp;
  last_timestamp =
      if ltb d.last_timestamp o.last_timestamp then o.last_timestamp else d.last_timestamp;
}

-- The counters of points.
pub record Counts : Type 0 where
  pub count : ℕ
  pub error_count : ℕ
  pub request_count : ℕ
  pub error_request_count : ℕ

-- The increments that a point makes.
unfoldable pub count_point : Counts → Bool → Bool → Counts
count_point d is_error is_request = record {
  count = d.count + 1;
  error_count = d.error_count + bit is_error;
  request_count = d.request_count + bit is_request;
  error_request_count = d.error_request_count + bit (is_request && is_error);
}

unfoldable pub merge_counts : Counts → Counts → Counts
merge_counts d o = record {
  count = d.count + o.count;
  error_count = d.error_count + o.error_count;
  request_count = d.request_count + o.request_count;
  error_request_count = d.error_request_count + o.error_request_count;
}

module _ (fl : Float64) where
  open fl use {F, zero_f, add_f, ltb_f}

  -- `if none || x < cur { cur = x }`, and the same upwards.
  unfoldable pub lowered : Bool → F → F → F
  lowered none cur x = if none || ltb_f x cur then x else cur

  unfoldable pub raised : Bool → F → F → F
  raised none cur x = if none || ltb_f cur x then x else cur

  pub record Samples : Type 0 where
    pub count : ℕ
    pub sum : F
    pub min : F
    pub max : F

  unfoldable pub observe_sample : Samples → F → Samples
  observe_sample d micros = record {
    count = d.count + 1;
    sum = add_f d.sum micros;
    min = lowered (d.count == 0) d.min micros;
    max = raised (d.count == 0) d.max micros;
  }

  unfoldable pub merge_samples : Samples → Samples → Samples
  merge_samples d o =
      if ltb 0 o.count
      then record {
        count = d.count + o.count;
        sum = add_f d.sum o.sum;
        min = lowered (d.count == 0) d.min o.min;
        max = raised (d.count == 0) d.max o.max;
      }
      else d

  pub record Gauges : Type 0 where
    pub samples : Samples
    pub last : F
    pub last_time : ℕ

  unfoldable pub observe_gauge : Gauges → F → ℕ → Gauges
  observe_gauge d value ts =
      let later = d.last_time == 0 || leb d.last_time ts in
      record {
        samples = observe_sample d.samples value;
        last = if later then value else d.last;
        last_time = if later then ts else d.last_time;
      }

  unfoldable pub merge_gauges : Gauges → Gauges → Gauges
  merge_gauges d o =
      let later = d.last_time == 0 || ltb d.last_time o.last_time in
      if ltb 0 o.samples.count
      then record {
        samples = merge_samples d.samples o.samples;
        last = if later then o.last else d.last;
        last_time = if later then o.last_time else d.last_time;
      }
      else d

  pub record Histograms : Type 0 where
    pub count : ℕ
    pub sum : F
    pub min : F
    pub max : F
    pub flags : HistFlags
    pub source_error : F
    pub tail_bound : F
    pub tail_count : ℕ

  unfoldable pub fold_flags : HistogramFold fl → HistFlags
  fold_flags f = record {
    percentiles_unavailable = f.percentiles_unavailable;
    unbounded_tail = f.unbounded_tail;
    has_min = f.scalars.has_min;
    has_max = f.scalars.has_max;
    reason = reason_code f.drop_reason;
  }

  unfoldable pub observe_fold : Histograms → HistogramFold fl → Histograms
  observe_fold d f = record {
    count = (d.count + f.scalars.count) % 2 ^ 64;
    sum = add_f d.sum f.scalars.sum;
    min = if f.scalars.has_min then lowered (not d.flags.has_min) d.min f.scalars.min else d.min;
    max = if f.scalars.has_max then raised (not d.flags.has_max) d.max f.scalars.max else d.max;
    flags = merge_hist_flags d.flags (fold_flags f);
    source_error = raised false d.source_error f.source_bucket_error;
    tail_bound =
        if f.unbounded_tail
        then lowered (not d.flags.unbounded_tail) d.tail_bound f.unbounded_tail_bound
        else d.tail_bound;
    tail_count =
        if f.unbounded_tail then (d.tail_count + f.unbounded_tail_count) % 2 ^ 64 else d.tail_count;
  }

  unfoldable pub merge_histograms : Histograms → Histograms → Histograms
  merge_histograms d o =
      if ltb 0 o.count || any_flag o.flags
      then record {
        count = (d.count + o.count) % 2 ^ 64;
        sum = add_f d.sum o.sum;
        min = if o.flags.has_min then lowered (not d.flags.has_min) d.min o.min else d.min;
        max = if o.flags.has_max then raised (not d.flags.has_max) d.max o.max else d.max;
        flags = merge_hist_flags d.flags o.flags;
        source_error = raised false d.source_error o.source_error;
        tail_bound =
            if o.flags.unbounded_tail
            then lowered (not d.flags.unbounded_tail) d.tail_bound o.tail_bound
            else d.tail_bound;
        tail_count = (d.tail_count + o.tail_count) % 2 ^ 64;
      }
      else d

  pub record AggregateDelta : Type 0 where
    pub counts : Counts
    pub durations : Samples
    pub gauges : Gauges
    pub counter_delta : F
    pub reset_count : ℕ
    pub histograms : Histograms
    pub logs : Logs

  -- A call of one of the `Observe` methods.
  pub data Point : Type 0 where
    span : F → Bool → Bool → Point
    log_record : ℕ → Bool → Point
    gauge : F → ℕ → Point
    counter : F → Bool → Point
    histogram : HistogramFold fl → Point

  unfoldable pub observe : AggregateDelta → Point → AggregateDelta
  observe d (span micros is_error is_request) = record d {
    counts = count_point d.counts is_error is_request;
    durations = observe_sample d.durations micros;
  }
  observe d (log_record ts is_error) = record d {
    counts = count_point d.counts is_error false;
    logs = observe_log_time d.logs ts;
  }
  observe d (gauge value ts) = record d {
    counts = count_point d.counts false false;
    gauges = observe_gauge d.gauges value ts;
  }
  observe d (counter delta reset) = record d {
    counts = count_point d.counts false false;
    counter_delta = add_f d.counter_delta delta;
    reset_count = d.reset_count + bit reset;
  }
  observe d (histogram f) = record d {
    counts = count_point d.counts false false;
    histograms = observe_fold d.histograms f;
  }

  unfoldable pub merge : AggregateDelta → AggregateDelta → AggregateDelta
  merge d o = record {
    counts = merge_counts d.counts o.counts;
    durations = merge_samples d.durations o.durations;
    gauges = merge_gauges d.gauges o.gauges;
    counter_delta = add_f d.counter_delta o.counter_delta;
    reset_count = d.reset_count + o.reset_count;
    histograms = merge_histograms d.histograms o.histograms;
    logs = merge_logs d.logs o.logs;
  }

  abbrev pub no_samples : Samples
  no_samples = record { count = 0; sum = zero_f; min = zero_f; max = zero_f }

  abbrev pub no_gauges : Gauges
  no_gauges = record { samples = no_samples; last = zero_f; last_time = 0 }

  abbrev pub no_histograms : Histograms
  no_histograms = record {
    count = 0;
    sum = zero_f;
    min = zero_f;
    max = zero_f;
    flags = no_flags;
    source_error = zero_f;
    tail_bound = zero_f;
    tail_count = 0;
  }

  -- `AggregateDelta{}`
  abbrev pub empty_delta : AggregateDelta
  empty_delta = record {
    counts = record { count = 0; error_count = 0; request_count = 0; error_request_count = 0 };
    durations = no_samples;
    gauges = no_gauges;
    counter_delta = zero_f;
    reset_count = 0;
    histograms = no_histograms;
    logs = record { log_count = 0; first_timestamp = 0; last_timestamp = 0 };
  }
