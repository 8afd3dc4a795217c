-- ===== src/Aggregate/Limiter/Tests.antt =====
-- cardinality.go: runs of the limiter on small budgets, and the theorems at concrete inputs.
use otelcontext.Base.{
  ℕ, ◌≡◌, refl, ap, ◌≢◌, ◌≤◌, ◌<◌, true, false, some, [], ◌∷◌, arith, pos, ℕ_discrete,
}
use otelcontext.Base.Samples.{whole_float}
use otelcontext.Base.Map.{at, get, has, size, put, incr}
use otelcontext.Aggregate.Key.{SeriesKey, key_discrete}
use otelcontext.Aggregate.Budget.{
  LimiterConfig, with_defaults, name_cap, series_cap, signal_cap, tenant_limit,
}
use otelcontext.Aggregate.Limiter.{
  Limiter, new_limiter, admit, release, is_present, scope, scope_discrete, names_of,
  window_key_discrete, check, tenant_full, names_full, series_full, signal_is_full, global_full,
  add, mark, charge, remember_name, route_overflow,
}
use otelcontext.Aggregate.Limiter.Admitting.{Recorded, admit-Recorded}
use otelcontext.Aggregate.Limiter.Census.{charged_by, of_any}
use otelcontext.Aggregate.Limiter.Runs.{
  Op, admits, releases, run, step, run_bounded, run_counts, signal, cap_test, cap_limit,
  cap_enabled,
}
use otelcontext.Base.Map.Tally.{tally}
use otelcontext.Aggregate.Limiter.Charged.{charged}
use otelcontext.Aggregate.Limiter.Names.{release_forgets_name}

-- Two operations a service, and two trace series in all.
abbrev small : LimiterConfig whole_float
small = record {
  max_series = pos 10;
  max_series_metrics = pos 2;
  max_series_traces = pos 2;
  max_series_edges = pos 2;
  max_series_logs = pos 2;
  max_series_system = pos 2;
  max_operations_per_service = pos 1;
  max_log_templates_per_service = pos 1;
  max_trace_series_per_service = pos 5;
  max_metric_series_per_service = pos 5;
  series_per_tenant_fraction = 0;
  other_name_id = some (λ t s. 99);
}

abbrev span : ℕ → ℕ → SeriesKey
span name status = record {
  tenant_id = 1;
  service_id = 7;
  name_id = name;
  dims_id = 0;
  signal = 1;
  status_class = status;
  http_class = 0;
  method = 0;
  variant = 2;
}

-- Two spans of one operation, which differ in their status.
two : Limiter whole_float
unfolding run step new_limiter with_defaults admit check tenant_full names_full series_full
    signal_is_full global_full name_cap series_cap signal_cap tenant_limit add mark charge
    remember_name is_present incr get put size key_discrete scope_discrete window_key_discrete
    ℕ_discrete charged tally
two =
    run whole_float (new_limiter whole_float small)
      (admits (span 5 1) 300 ∷ admits (span 5 2) 300 ∷ [])

two-total : two.total ≡ 2
unfolding two
two-total = refl

abbrev third : Op
third = admits (span 6 1) 300

-- The third span's name is over the cap: it is not charged, and its overflow series is active.
third_overflows : (admit whole_float two (span 6 1) 300).1.overflowed ≡ true
unfolding two route_overflow
third_overflows = refl

run_bounded_example :
    charged_by whole_float
      (run whole_float
        (new_limiter whole_float small)
        (admits (span 5 1) 300 ∷ admits (span 5 2) 300 ∷ third ∷ []))
      (cap_test (signal 1))
    ≤ cap_limit whole_float (with_defaults whole_float small) (signal 1)
unfolding cap_enabled with_defaults signal_cap
run_bounded_example =
    run_bounded whole_float small (admits (span 5 1) 300 ∷ admits (span 5 2) 300 ∷ third ∷ [])
      (signal 1) refl

run_counts_example :
    let l =
      run whole_float (new_limiter whole_float small) (third ∷ releases (span 6 1) 300 ∷ []) in
    l.total ≡ charged_by whole_float l of_any
run_counts_example = (run_counts whole_float small (third ∷ releases (span 6 1) 300 ∷ [])).0

span-ne : span 5 2 ≢ span 5 1
span-ne e = omega (arith, ap (λ (k : SeriesKey). k.status_class) e)

-- Releasing one of the two spans makes the service forget their name.
release_forgets_name_example :
    let l' = release whole_float two (span 5 1) 300 in
    (0 < at key_discrete (span 5 2) l'.windows)
    × (has ℕ_discrete 5
          (names_of whole_float (get scope_discrete (scope whole_float (span 5 2)) l'.names))
        ≡ false)
unfolding two
release_forgets_name_example =
    release_forgets_name whole_float two (span 5 1) 300 (span 5 2) refl refl refl span-ne refl refl
      (omega arith)

admit-Recorded_example :
    Recorded whole_float two (span 6 1) 300 (admit whole_float two (span 6 1) 300)
admit-Recorded_example = admit-Recorded whole_float two (span 6 1) 300
