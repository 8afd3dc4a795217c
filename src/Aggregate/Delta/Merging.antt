-- ===== src/Aggregate/Delta/Merging.antt =====
-- delta.go: merging the delta of a request counts what observing its points counts.
use otelcontext.Base.{
  ℕ, ◌+◌, ◌%◌, ◌^◌, ◌<◌, ◌≡◌, refl, ◌∙◌, ap, sym, List, [], ◌∷◌, arith, ltb, if◌then◌else◌, Float64,
  All, bit, false,
}
use otelcontext.Aggregate.Delta.{
  AggregateDelta, Point, span, log_record, gauge, counter, histogram, observe, merge, empty_delta,
  observe_sample, observe_gauge, observe_fold, fold_flags, merge_counts, merge_samples,
  merge_gauges, merge_logs, no_flags, merge_hist_flags, count_point, observe_log_time,
  merge_histograms, any_flag,
}
use otelcontext.Aggregate.Delta.Groups.{
  add_further, count_point-merge, observe_log_time-merge, merge_hist_flags_assoc,
  merge_histograms-count, merge_histograms-flags,
}

module _ (fl : Float64) where
  -- Two deltas with the same counters, times of logs, and flags.
  pub record Alike (a b : AggregateDelta fl) : Type 0 where
    pub counts : a.counts ≡ b.counts
    pub logs : a.logs ≡ b.logs
    pub resets : a.reset_count ≡ b.reset_count
    pub durations : a.durations.count ≡ b.durations.count
    pub gauges : a.gauges.samples.count ≡ b.gauges.samples.count
    pub population : a.histograms.count ≡ b.histograms.count
    pub flags : a.histograms.flags ≡ b.histograms.flags

  Alike-trans : (a b c : AggregateDelta fl) → Alike a b → Alike b c → Alike a c
  Alike-trans a b c h k = record {
    counts = h.counts ∙ k.counts;
    logs = h.logs ∙ k.logs;
    resets = h.resets ∙ k.resets;
    durations = h.durations ∙ k.durations;
    gauges = h.gauges ∙ k.gauges;
    population = h.population ∙ k.population;
    flags = h.flags ∙ k.flags;
  }

  -- A log record has a time.
  abbrev pub Timed : Point fl → Type 0
  Timed (span micros is_error is_request) = Unit
  Timed (log_record ts is_error) = 0 < ts
  Timed (gauge value ts) = Unit
  Timed (counter delta reset) = Unit
  Timed (histogram f) = Unit

  observe-Alike :
      (a b : AggregateDelta fl) (p : Point fl) → Alike a b → Alike (observe fl a p) (observe fl b p)
  unfolding observe observe_sample observe_gauge observe_fold
  observe-Alike a b (span micros is_error is_request) h = record {
    counts = ap (λ c. count_point c is_error is_request) h.counts;
    logs = h.logs;
    resets = h.resets;
    durations = ap (λ n. n + 1) h.durations;
    gauges = h.gauges;
    population = h.population;
    flags = h.flags;
  }
  observe-Alike a b (log_record ts is_error) h = record {
    counts = ap (λ c. count_point c is_error false) h.counts;
    logs = ap (λ l. observe_log_time l ts) h.logs;
    resets = h.resets;
    durations = h.durations;
    gauges = h.gauges;
    population = h.population;
    flags = h.flags;
  }
  observe-Alike a b (gauge value ts) h = record {
    counts = ap (λ c. count_point c false false) h.counts;
    logs = h.logs;
    resets = h.resets;
    durations = h.durations;
    gauges = ap (λ n. n + 1) h.gauges;
    population = h.population;
    flags = h.flags;
  }
  observe-Alike a b (counter delta reset) h = record {
    counts = ap (λ c. count_point c false false) h.counts;
    logs = h.logs;
    resets = ap (λ n. n + bit reset) h.resets;
    durations = h.durations;
    gauges = h.gauges;
    population = h.population;
    flags = h.flags;
  }
  observe-Alike a b (histogram f) h = record {
    counts = ap (λ c. count_point c false false) h.counts;
    logs = h.logs;
    resets = h.resets;
    durations = h.durations;
    gauges = h.gauges;
    population = ap (λ n. (n + f.scalars.count) % 2 ^ 64) h.population;
    flags = ap (λ g. merge_hist_flags g (fold_flags fl f)) h.flags;
  }

  wrapped_further : (a b c : ℕ) → (a + (b + c) % 2 ^ 64) % 2 ^ 64 ≡ ((a + b) % 2 ^ 64 + c) % 2 ^ 64
  wrapped_further a b c = omega arith

  -- One more point before the merge, or after it.
  observe-merge :
      (d o : AggregateDelta fl) (p : Point fl)
      → d.histograms.count < 2 ^ 64
      → Timed p
      → Alike (merge fl d (observe fl o p)) (observe fl (merge fl d o) p)
  unfolding merge observe observe_sample observe_gauge observe_fold merge_samples merge_gauges
  observe-merge d o (span micros is_error is_request) w u = record {
    counts = count_point-merge d.counts o.counts is_error is_request;
    logs = refl;
    resets = refl;
    durations = ground arith;
    gauges = refl;
    population = refl;
    flags = refl;
  }
  observe-merge d o (log_record ts is_error) w u = record {
    counts = count_point-merge d.counts o.counts is_error false;
    logs = observe_log_time-merge d.logs o.logs ts u;
    resets = refl;
    durations = refl;
    gauges = refl;
    population = refl;
    flags = refl;
  }
  observe-merge d o (gauge value ts) w u = record {
    counts = count_point-merge d.counts o.counts false false;
    logs = refl;
    resets = refl;
    durations = refl;
    gauges = ground arith;
    population = refl;
    flags = refl;
  }
  observe-merge d o (counter delta reset) w u = record {
    counts = count_point-merge d.counts o.counts false false;
    logs = refl;
    resets = add_further d.reset_count o.reset_count (bit reset);
    durations = refl;
    gauges = refl;
    population = refl;
    flags = refl;
  }
  observe-merge d o (histogram f) w u = record {
    counts = count_point-merge d.counts o.counts false false;
    logs = refl;
    resets = refl;
    durations = refl;
    gauges = refl;
    population =
        merge_histograms-count fl d.histograms (observe_fold fl o.histograms f) w
        ∙ (wrapped_further d.histograms.count o.histograms.count f.scalars.count
            ∙ ap (λ n. (n + f.scalars.count) % 2 ^ 64)
                (sym (merge_histograms-count fl d.histograms o.histograms w)));
    flags =
        merge_histograms-flags fl d.histograms (observe_fold fl o.histograms f)
        ∙ (merge_hist_flags_assoc d.histograms.flags o.histograms.flags (fold_flags fl f)
            ∙ ap (λ g. merge_hist_flags g (fold_flags fl f))
                (sym (merge_histograms-flags fl d.histograms o.histograms)));
  }

  unfoldable pub observe_all : AggregateDelta fl → List (Point fl) → AggregateDelta fl
  observe_all o [] = o
  observe_all o (p ∷ ps) = observe_all (observe fl o p) ps

  observe_all-Alike :
      (a b : AggregateDelta fl) (ps : List (Point fl))
      → Alike a b
      → Alike (observe_all a ps) (observe_all b ps)
  unfolding observe_all
  observe_all-Alike a b [] h = h
  observe_all-Alike a b (p ∷ ps) h =
      observe_all-Alike (observe fl a p) (observe fl b p) ps (observe-Alike a b p h)

  observe_all-merge :
      (d o : AggregateDelta fl) (ps : List (Point fl))
      → d.histograms.count < 2 ^ 64
      → All Timed ps
      → Alike (merge fl d (observe_all o ps)) (observe_all (merge fl d o) ps)
  unfolding observe_all
  observe_all-merge d o [] w u = record {
    counts = refl;
    logs = refl;
    resets = refl;
    durations = refl;
    gauges = refl;
    population = refl;
    flags = refl;
  }
  observe_all-merge d o (p ∷ ps) w u =
      let next = merge fl d (observe fl o p) in
      Alike-trans (merge fl d (observe_all (observe fl o p) ps)) (observe_all next ps)
        (observe_all (observe fl (merge fl d o) p) ps)
        (observe_all-merge d (observe fl o p) ps w u.1)
        (observe_all-Alike next (observe fl (merge fl d o) p) ps (observe-merge d o p w u.0))

  last_same : (n : ℕ) → (if ltb n 0 then 0 else n) ≡ n
  last_same n = ground arith

  merge-empty : (d : AggregateDelta fl) → Alike (merge fl d (empty_delta fl)) d
  unfolding merge merge_counts merge_samples merge_gauges merge_logs merge_histograms no_flags
      any_flag
  merge-empty d = record {
    counts = λ i. record {
      count = plus_0 d.counts.count i;
      error_count = plus_0 d.counts.error_count i;
      request_count = plus_0 d.counts.request_count i;
      error_request_count = plus_0 d.counts.error_request_count i;
    };
    logs = λ i. record {
      log_count = plus_0 d.logs.log_count i;
      first_timestamp = d.logs.first_timestamp;
      last_timestamp = last_same d.logs.last_timestamp i;
    };
    resets = plus_0 d.reset_count;
    durations = refl;
    gauges = refl;
    population = refl;
    flags = refl;
  }
    where
      plus_0 : (n : ℕ) → n + 0 ≡ n
      plus_0 n = omega arith

  -- Merging into `d` the delta of any points of one request, of spans, logs, gauges, counters and
  -- histograms in any order, or observing these points in `d` itself, gives the same point and
  -- error counters, log count and first and last log time, resets, numbers of durations and gauges,
  -- histogram population with its wrap at 2^64, and histogram flags. A log record needs a time, and
  -- the histogram population of `d` is a `uint64`.
  pub merge_counts_replay :
      (d : AggregateDelta fl) (ps : List (Point fl))
      → d.histograms.count < 2 ^ 64
      → All Timed ps
      → Alike (merge fl d (observe_all (empty_delta fl) ps)) (observe_all d ps)
  merge_counts_replay d ps w u =
      Alike-trans (merge fl d (observe_all (empty_delta fl) ps))
        (observe_all (merge fl d (empty_delta fl)) ps) (observe_all d ps)
        (observe_all-merge d (empty_delta fl) ps w u)
        (observe_all-Alike (merge fl d (empty_delta fl)) d ps (merge-empty d))
