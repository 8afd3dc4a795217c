-- ===== src/Aggregate/Sketch/Tests.antt =====
-- sketch.go: two observations near each other, and one out of reach.
use otelcontext.Base.{◌≡◌, refl, true, false, some, none, [], ◌∷◌, arith}
use otelcontext.Aggregate.Sketch.{Sketch, new_sketch, add}
use otelcontext.Aggregate.Sketch.Windows.{at_or_below}
use otelcontext.Aggregate.Sketch.Counts.{Observation, observed, total, highest}
use otelcontext.Aggregate.Sketch.Order.{add_all, add_all_counts}
use otelcontext.Aggregate.Sketch.Far.{add_panics}

-- The indexes 0 and 600, biased.
abbrev near : Observation
near = record { index = 2147483648; times = 3 }

abbrev later : Observation
later = record { index = 2147484248; times = 4 }

add_all_counts_example :
    (after : Sketch) × (add_all (new_sketch 4) (near ∷ later ∷ []) ≡ some after)
    × (after.bin_total ≡ total (near ∷ later ∷ []))
    × (at_or_below after 2147483800 ≡ observed 2147483800 (near ∷ later ∷ []))
unfolding total highest
add_all_counts_example =
    add_all_counts 4 (near ∷ later ∷ []) 2147483800
      ((omega arith, omega arith, omega arith), ((omega arith, omega arith, omega arith), tt))
      (omega arith) (omega arith)

-- One observation at the lowest index of an exponential histogram.
abbrev lowest_only : Sketch
lowest_only = record {
  count = 1;
  zero_count = 0;
  bin_total = 1;
  saturations = 0;
  min_idx = 0;
  max_idx = 0;
  scale = 4;
  collapsed = false;
  has_bins = true;
  bins = λ p. 0;
}

add_panics_example : add lowest_only 4294967294 1 ≡ none
add_panics_example =
    add_panics lowest_only 4294967294 1 (omega arith) refl (omega arith) (omega arith) (omega arith)
