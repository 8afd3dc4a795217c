-- ===== src/Tsdb/Ring/Tests.antt =====
-- ringbuffer.go over whole numbers: a ring of three windows of ten.
use otelcontext.Base.{◌+◌, ◌*◌, ◌≡◌, refl, min, some, List, [], ◌∷◌, arith, text, replicate}
use otelcontext.Base.Samples.{whole_float}
use otelcontext.Tsdb.Ring.{MetricRing, catch_up, record_ring}
use otelcontext.Tsdb.Ring.Advance.{Sound, catch_up-start, record_ring-Sound}
use otelcontext.Tsdb.Ring.Series.{Point}

abbrev three : MetricRing whole_float
three = record {
  slots = replicate 3 (record {
    metric_name = [];
    service_name = [];
    window_start = 70;
    count = 0;
    sum = 0;
    min = 1000000;
    max = 0;
    samples = [];
  });
  size = 3;
  window_dur = 10;
  current_idx = 1;
  current_start = 70;
  metric_name = [];
  service_name = [];
}

-- Five windows of silence: the ring stops at 100, two windows before the point's.
five_windows_late :
    (after : MetricRing whole_float) × (catch_up whole_float three (70 + 5 * 10) ≡ some after)
    × (after.current_start ≡ 70 + min 5 3 * 10)
five_windows_late = catch_up-start whole_float three 5 (omega arith)

record_ring-Sound_example :
    (after : MetricRing whole_float) × (record_ring whole_float three 4 95 ≡ some after)
    × Sound whole_float after
unfolding Sound
record_ring-Sound_example = record_ring-Sound whole_float three 4 95 (
  omega arith,
  omega arith,
  refl,
  omega arith,
  (
    record {
      metric_name = [];
      service_name = [];
      window_start = 70;
      count = 0;
      sum = 0;
      min = 1000000;
      max = 0;
      samples = [];
    },
    refl,
    refl,
  ),
)

abbrev points : List (Point whole_float)
points =
    record { tenant = []; metric = text "m"; service = text "s"; value = 4; time = 75; now = 71 }
    ∷ record { tenant = []; metric = text "n"; service = text "s"; value = 4; time = 75; now = 71 }
    ∷ []
