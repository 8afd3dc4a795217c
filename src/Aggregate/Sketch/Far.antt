-- ===== src/Aggregate/Sketch/Far.antt =====
-- sketch.go: an index too far above the window.
use otelcontext.Base.{
  ℕ, ◌+◌, ◌≤◌, ◌<◌, ◌≡◌, refl, ap, true, false, not, none, arith, ltb, leb, ◌==◌,
}
use otelcontext.Aggregate.Sketch.{
  Sketch, two_31, two_32, sketch_max_bins, diff, position, add, add_above, put_at,
}

-- The difference wraps below zero.
wrapped : (a b : ℕ) → b + two_31 ≤ a → a < two_32 → diff a b < two_31
unfolding diff
wrapped a b far top = omega arith

negative_position : (d : ℕ) → d < two_31 → position d ≡ none
unfolding position
negative_position d h = ground (arith, h)

-- An index at least 2^31 above the floor makes `add` panic: the wrapped difference is negative, so
-- the window is not collapsed, and the bin is accessed at a negative position.
pub add_panics :
    (s : Sketch) (index n : ℕ)
    → 0 < n
    → s.has_bins ≡ true
    → s.max_idx < index
    → s.min_idx + two_31 ≤ index
    → index < two_32
    → add s index n ≡ none
unfolding add add_above put_at
add_panics s index n pos has above far top =
    let some_times : (n == 0) ≡ false = ground (arith, pos) in
    let started : not s.has_bins ≡ false = ap not has in
    let high : ltb s.max_idx index ≡ true = ground (arith, above) in
    let negative = wrapped index s.min_idx far top in
    let room : leb (two_31 + sketch_max_bins) (diff index s.min_idx) ≡ false =
      ground (arith, negative) in
    let outside = negative_position (diff index s.min_idx) negative in
    rw (some_times, add, started, high, room, put_at, outside) refl
