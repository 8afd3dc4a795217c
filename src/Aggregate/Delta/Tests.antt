-- ===== src/Aggregate/Delta/Tests.antt =====
-- delta.go over whole numbers: a delta of one gauge, and a request of five points.
use otelcontext.Base.{ℕ, ◌≡◌, refl, true, false, List, [], ◌∷◌, arith, none}
use otelcontext.Base.Samples.{whole_float}
use otelcontext.Aggregate.Histogram.{HistogramFold, drop_none}
use otelcontext.Aggregate.Delta.{
  AggregateDelta, Point, span, log_record, gauge, counter, histogram, merge, empty_delta,
  observe_sample, observe_gauge, merge_gauges, observe_fold, merge_histograms, any_flag,
  merge_hist_flags, fold_flags, no_flags, merge_reason,
}
use otelcontext.Aggregate.Delta.Merging.{Alike, observe_all, merge_counts_replay}

abbrev fold_of : ℕ → ℕ → HistogramFold whole_float
fold_of n total = record {
  sketch = none;
  scalars = record {
    count = n;
    sum = total;
    has_sum = true;
    min = 0;
    has_min = false;
    max = 0;
    has_max = false;
  };
  percentiles_unavailable = false;
  drop_reason = drop_none;
  source_bucket_error = 0;
  unbounded_tail = false;
  unbounded_tail_bound = 0;
  unbounded_tail_count = 0;
}

abbrev one_gauge : AggregateDelta whole_float
one_gauge = record (empty_delta whole_float) {
  gauges = record {
    samples = record { count = 1; sum = 7; min = 7; max = 7 };
    last = 7;
    last_time = 50;
  };
}

abbrev request : List (Point whole_float)
request =
    span 12 true false
    ∷ log_record 40 true
    ∷ gauge 9 60
    ∷ counter 3 false
    ∷ histogram (fold_of 2 30)
    ∷ []

merge_counts_replay_example :
    Alike whole_float
      (merge whole_float one_gauge (observe_all whole_float (empty_delta whole_float) request))
      (observe_all whole_float one_gauge request)
merge_counts_replay_example =
    merge_counts_replay whole_float one_gauge request (omega arith)
      (tt, (omega arith, (tt, (tt, (tt, tt)))))

-- Two gauges of one time: a merge keeps the first value, an observation takes the second.
tie_merged :
    (merge_gauges whole_float one_gauge.gauges
      (observe_gauge whole_float (empty_delta whole_float).gauges 9 50)).last
    ≡ 7
unfolding merge_gauges observe_gauge observe_sample
tie_merged = refl

tie_observed : (observe_gauge whole_float one_gauge.gauges 9 50).last ≡ 9
unfolding observe_gauge
tie_observed = refl

-- The sum of a point without observations is observed, but not merged.
idle_sum_merged :
    (merge_histograms whole_float
      (empty_delta whole_float).histograms
      (observe_fold whole_float (empty_delta whole_float).histograms (fold_of 0 5))).sum
    ≡ 0
unfolding merge_histograms observe_fold any_flag merge_hist_flags fold_flags no_flags merge_reason
idle_sum_merged = refl

idle_sum_observed :
    (observe_fold whole_float (empty_delta whole_float).histograms (fold_of 0 5)).sum ≡ 5
unfolding observe_fold
idle_sum_observed = refl
