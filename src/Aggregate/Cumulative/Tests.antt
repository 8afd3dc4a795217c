-- ===== src/Aggregate/Cumulative/Tests.antt =====
-- temporality.go: the tracker on a counter that runs from 10 to 15, over whole numbers.
use otelcontext.Base.{◌≡◌, ◌≤◌, inr, refl, some, arith, pos, ℕ_discrete}
use otelcontext.Base.Samples.{whole_float}
use otelcontext.Base.Map.{get, put, size}
use otelcontext.Aggregate.Key.{SeriesKey, key_discrete}
use otelcontext.Aggregate.Tracker.{
  Tracker, BaselineState, BaselineTrackerConfig, new_tracker, resolve_config, seed, state_of,
  set_state, by_producer, elapsed,
}
use otelcontext.Aggregate.Cumulative.{
  Point, observe, route, ensure_series, known_point, progress_point, settle, classify,
}
use otelcontext.Aggregate.Cumulative.Points.{increase}
use otelcontext.Aggregate.Cumulative.Ledger.{observe_local, slot}
use otelcontext.Aggregate.Cumulative.Retry.{FloatLaws, retry_recovers}

abbrev config : BaselineTrackerConfig
config = record {
  max_producers_per_series = pos 2;
  max_baselines = pos 5;
  gap_threshold = pos 1000;
}

abbrev requests : SeriesKey
requests = record {
  tenant_id = 1;
  service_id = 7;
  name_id = 5;
  dims_id = 0;
  signal = 4;
  status_class = 0;
  http_class = 0;
  method = 0;
  variant = 0;
}

abbrev at_ten : BaselineState whole_float
at_ten = record {
  baseline = record { start_time = 0; last_timestamp = 100; value = 10 };
  pending = 0;
  owed = 0;
}

abbrev fifteen : Point whole_float
fifteen = record { start_time = 0; ts = 200; value = 15 }

counting : Tracker whole_float
unfolding new_tracker resolve_config seed state_of set_state by_producer get put key_discrete
    ℕ_discrete size
counting = seed whole_float (new_tracker whole_float config) requests 3 at_ten.baseline

whole_laws : FloatLaws whole_float
whole_laws = record {
  zero_not_pos = refl;
  pos_not_zero = λ a h. ground arith;
  zero_add = λ a h. omega arith;
}

counting-state : state_of whole_float counting requests 3 ≡ some at_ten
unfolding counting
counting-state = refl

hands_out_five : (observe whole_float counting requests 3 fifteen).1.delta ≡ 5
unfolding counting observe ensure_series route known_point elapsed progress_point settle classify
hands_out_five = refl

observe_local_example :
    ((b' : BaselineState whole_float) × (state_of whole_float
          (observe whole_float counting requests 3 fifteen).0
          requests
          (slot whole_float counting requests 3 fifteen).producer
        ≡ some b')
      × (100 ≤ b'.baseline.last_timestamp))
    × (state_of whole_float (observe whole_float counting requests 3 fifteen).0 requests 4
        ≡ state_of whole_float counting requests 4)
unfolding counting ensure_series route
observe_local_example =
    observe_local whole_float counting requests 3 fifteen at_ten requests 4 refl (inr (omega arith))

retry_recovers_example :
    (observe whole_float counting requests 3 fifteen).1.delta ≡ increase whole_float at_ten fifteen
unfolding counting increase elapsed
retry_recovers_example =
    (retry_recovers whole_float whole_laws counting requests 3 at_ten fifteen refl refl refl refl
      refl refl refl).0
