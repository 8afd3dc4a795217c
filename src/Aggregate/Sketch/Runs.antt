-- ===== src/Aggregate/Sketch/Runs.antt =====
-- sketch.go: `add` over a sequence of observations.
use otelcontext.Base.{
  ℕ, ◌+◌, ◌-◌, ◌≤◌, ◌<◌, ◌≡◌, refl, ◌∙◌, ap, inl, inr, true, false, not, Option, some, List, [],
  ◌∷◌, arith, ltb, leb, ◌==◌, max, Bool-cases,
}
use otelcontext.Aggregate.Sketch.{
  Sketch, diff, two_31, max_uint32, sketch_max_bins, sum_below, set_bin, used, new_sketch,
  first_bin, add_at, collapse_to, extend_to, lowest, add, add_above, add_below,
}
use otelcontext.Aggregate.Sketch.Sums.{sum_below-zero, sum_below-set}
use otelcontext.Aggregate.Sketch.Windows.{at_or_below, diff_lem, lowest_lem}
use otelcontext.Aggregate.Sketch.Counts.{
  Observation, observed, total, highest, Holds, low_index, high_index, put_at-Takes,
  extend_to-Holds, raise-Holds, collapse-Holds, marked-Holds,
}

-- An observation that the window can reach without a wrap.
abbrev pub Valid : Observation → Type 0
Valid o = (0 < o.times) × (low_index ≤ o.index) × (o.index < high_index)

-- The sketch holds the observations, and its window ends at the highest of them.
abbrev pub Full : List Observation → Sketch → Type 0
Full os s = Holds os s × (s.max_idx ≡ highest os)

abbrev pub Added : List Observation → Observation → Option Sketch → Type 0
Added os o r = (after : Sketch) × (r ≡ some after) × Full (o ∷ os) after

add_above-Added :
    (os : List Observation) (o : Observation) (s : Sketch)
    → Valid o
    → Full os s
    → s.max_idx < o.index
    → o.times + total os ≤ max_uint32
    → Added os o (add_above s o.index o.times)
unfolding add_above highest
add_above-Added os o s (pos, low, high) (h, top) above small =
    let d =
      diff_lem o.index s.min_idx (omega (arith, above, h.window)) (omega (arith, high, h.low)) in
    elim (Bool-cases (leb (two_31 + sketch_max_bins) (diff o.index s.min_idx))) [
      | inl w ↦
          let wide : s.min_idx + sketch_max_bins ≤ o.index = ground (arith, w, d) in
          let r = collapse-Holds os s o.index h above high wide (omega (arith, small)) in
          let (after, done, held, same) =
            put_at-Takes os o
              (record (collapse_to s (o.index + 1 - sketch_max_bins)) { max_idx = o.index }) o.index
              r r.window (omega arith) (omega arith) small (λ i l. refl) in
          (after, rw (w, add_above) done, (held, omega (arith, same, top, above)))
      | inr w ↦
          let narrow : o.index < s.min_idx + sketch_max_bins = ground (arith, w, d) in
          let r = raise-Holds os s o.index h above high narrow in
          let (after, done, held, same) =
            put_at-Takes os o (record s { max_idx = o.index }) o.index r r.window (omega arith)
              (omega arith) small (λ i l. refl) in
          (after, rw (w, add_above) done, (held, omega (arith, same, top, above)))
    ]

add_below-Added :
    (os : List Observation) (o : Observation) (s : Sketch)
    → Valid o
    → Full os s
    → o.index < s.min_idx
    → o.times + total os ≤ max_uint32
    → Added os o (add_below s o.index o.times)
unfolding add_below highest extend_to
add_below-Added os o s (pos, low, high) (h, top) below small =
    let floor = lowest_lem s (omega (arith, h.low, h.window)) (omega (arith, h.high)) in
    elim (Bool-cases (ltb o.index (lowest s))) [
      | inl w ↦
          let far : o.index < s.max_idx + 1 - sketch_max_bins = ground (arith, w, floor) in
          let r =
            extend_to-Holds os s (lowest s) h (omega (arith, floor, low, far))
              (omega (arith, floor, h.narrow)) (omega (arith, floor, h.low, h.window)) in
          let alike : (i : ℕ) → s.max_idx < i + sketch_max_bins → leb o.index i ≡ leb (lowest s) i =
            λ i l. ground (arith, far, floor, l) in
          let (after, done, held, same) =
            put_at-Takes os o (record (extend_to s (lowest s)) { collapsed = true }) (lowest s)
              (marked-Holds os (extend_to s (lowest s)) r) (omega arith) (omega (arith, floor))
              (omega (arith, below, h.window)) small alike in
          (after, rw (w, add_below) done, (held, omega (arith, same, top, below, h.window)))
      | inr w ↦
          let near : s.max_idx + 1 - sketch_max_bins ≤ o.index = ground (arith, w, floor) in
          let r = extend_to-Holds os s o.index h low (omega (arith, below)) (omega (arith, near)) in
          let (after, done, held, same) =
            put_at-Takes os o (extend_to s o.index) o.index r (omega arith)
              (omega (arith, below, h.window)) (omega (arith, below, h.window)) small
              (λ i l. refl) in
          (after, rw (w, add_below) done, (held, omega (arith, same, top, below, h.window)))
    ]

pub add-Added :
    (os : List Observation) (o : Observation) (s : Sketch)
    → Valid o
    → Full os s
    → o.times + total os ≤ max_uint32
    → Added os o (add s o.index o.times)
unfolding add highest
add-Added os o s v (h, top) small =
    let some_times : (o.times == 0) ≡ false = ground (arith, v.0) in
    let started : not s.has_bins ≡ false = ap not h.has in
    elim (Bool-cases (ltb s.max_idx o.index)) [
      | inl a ↦
          let r = add_above-Added os o s v (h, top) (ground (arith, a)) small in
          rw (some_times, add, started, a) r
      | inr a ↦ elim (Bool-cases (ltb o.index s.min_idx)) [
        | inl b ↦
            let r = add_below-Added os o s v (h, top) (ground (arith, b)) small in
            rw (some_times, add, started, a, b) r
        | inr b ↦
            let inside : o.index ≤ s.max_idx = ground (arith, a) in
            let (after, done, held, same) =
              put_at-Takes os o s o.index h (ground (arith, b)) inside inside small (λ i l. refl) in
            let highest_same : after.max_idx ≡ max o.index (highest os) =
              omega (arith, same, top, inside) in
            rw (some_times, add, started, a, b) ((after, done, (held, highest_same)))
      ]
    ]

-- The bins after the first observation.
abbrev pub one_bin : ℕ → ℕ → ℕ
one_bin n = set_bin (λ p. 0) 0 (0 + n)

one_bin-sum : (n k : ℕ) → 0 < k → sum_below (one_bin n) k ≡ n
one_bin-sum n k h =
    let zeros = sum_below-zero (λ p. 0) k (λ p l. refl) in
    omega (arith, sum_below-set (λ p. 0) 0 n k h, zeros)

-- The sketch of one observation, with a number of observations that it counts.
abbrev pub single : ℕ → ℕ → Observation → Sketch
single scale c o = record {
  count = c;
  zero_count = 0;
  bin_total = 0 + o.times;
  saturations = 0;
  min_idx = o.index;
  max_idx = o.index;
  scale = scale;
  collapsed = false;
  has_bins = true;
  bins = one_bin o.times;
}

single-sums :
    (scale c : ℕ) (o : Observation) (i : ℕ)
    → o.index < i + sketch_max_bins
    → at_or_below (single scale c o) i ≡ observed i (o ∷ [])
unfolding observed sum_below
single-sums scale c o i l = elim (Bool-cases (leb o.index i)) [
  | inl b ↦ rw b (one_bin-sum o.times (i + 1 - o.index) (ground (arith, b)) ∙ (omega arith))
  | inr b ↦
      let none_below : i + 1 - o.index ≡ 0 = ground (arith, b) in
      rw b (ap (sum_below (one_bin o.times)) none_below)
]

pub single-Full : (scale c : ℕ) (o : Observation) → Valid o → Full (o ∷ []) (single scale c o)
unfolding highest total used set_bin
single-Full scale c o (pos, low, high) = (
  record {
    has = refl;
    low = low;
    high = high;
    window = omega arith;
    narrow = omega arith;
    top = omega arith;
    trimmed = λ p l. ground (arith, l);
    sums = λ i l. single-sums scale c o i l;
    totals = omega arith;
  },
  omega arith,
)

pub add_first-Added :
    (scale : ℕ) (o : Observation)
    → Valid o
    → o.times ≤ max_uint32
    → Added [] o (add (new_sketch scale) o.index o.times)
unfolding add first_bin add_at new_sketch
add_first-Added scale o v small =
    let some_times : (o.times == 0) ≡ false = ground (arith, v.0) in
    let room : leb (0 + o.times) max_uint32 ≡ true = ground (arith, small) in
    (single scale 0 o, rw (some_times, add, room) refl, single-Full scale 0 o v)
