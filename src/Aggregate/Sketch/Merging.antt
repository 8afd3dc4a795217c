-- ===== src/Aggregate/Sketch/Merging.antt =====
-- sketch.go: `Merge` of two sketches of one scale adds their counts.
use otelcontext.Base.{
  ℕ, zero, suc, ◌+◌, ◌-◌, ◌≤◌, ◌<◌, ◌≡◌, refl, ◌∙◌, ap, inl, inr, Bool, false, not, ◌||◌, Option,
  none, some, List, [], ◌∷◌, arith, ltb, leb, ◌==◌, if◌then◌else◌, min, Bool-cases, All,
}
use otelcontext.Aggregate.Sketch.{
  Sketch, max_uint32, sketch_max_bins, sum_below, used, add, merge_bins, merge_aligned, merge,
}
use otelcontext.Aggregate.Sketch.Windows.{at_or_below, sum_below-Trimmed, Trimmed}
use otelcontext.Aggregate.Sketch.Counts.{
  Observation, observed, total, highest, Holds, low_index, high_index, held-total,
}
use otelcontext.Aggregate.Sketch.Runs.{Valid, Full}
use otelcontext.Aggregate.Sketch.Order.{
  add_all, add_all-Ran, onto, observed-onto, total-onto, highest-onto, Ran,
}

-- The bins of a window that hold something, as observations.
entries : ℕ → Sketch → ℕ → List Observation
entries zero src p = []
entries (suc n) src p =
    let rest = entries n src (suc p) in
    if src.bins p == 0 then rest else record { index = src.min_idx + p; times = src.bins p } ∷ rest

after_add :
    (n : ℕ) (src : Sketch) (p : ℕ) (r : Option Sketch)
    → ((t : Sketch) → merge_bins n src (suc p) t ≡ add_all t (entries n src (suc p)))
    → elim r as (λ x. Option Sketch) [ none ↦ none | some t ↦ merge_bins n src (suc p) t ]
      ≡ elim r as (λ x. Option Sketch) [ none ↦ none | some t ↦ add_all t (entries n src (suc p)) ]
after_add n src p none ih = refl
after_add n src p (some t) ih = ih t

merge_bins-eq-add_all :
    (n : ℕ) (src : Sketch) (p : ℕ) (s : Sketch) → merge_bins n src p s ≡ add_all s (entries n src p)
unfolding merge_bins add_all entries
merge_bins-eq-add_all zero src p s = refl
merge_bins-eq-add_all (suc n) src p s = elim (Bool-cases (src.bins p == 0)) [
  | inl z ↦ rw (z, merge_bins, entries) (merge_bins-eq-add_all n src (suc p) s)
  | inr z ↦
      rw (z, merge_bins, entries, add_all)
        (after_add n src p (add s (src.min_idx + p) (src.bins p))
          (merge_bins-eq-add_all n src (suc p)))
]

-- One more bin of a window below a bound, with what the bins up to it hold.
bin_below :
    (f : ℕ → ℕ) (p m : ℕ)
    → sum_below f (min (suc p) m) ≡ (if ltb p m then f p else 0) + sum_below f (min p m)
unfolding sum_below
bin_below f p m = elim (Bool-cases (ltb p m)) [
  | inl l ↦
      let a : min (suc p) m ≡ suc p = ground (arith, l) in
      let b : min p m ≡ p = ground (arith, l) in
      let sums : sum_below f (min (suc p) m) ≡ sum_below f p + f p = ap (sum_below f) a in
      let same : sum_below f (min p m) ≡ sum_below f p = ap (sum_below f) b in
      rw l (omega (arith, sums, same))
  | inr l ↦
      let a : min (suc p) m ≡ min p m = ground (arith, l) in
      let same = ap (sum_below f) a in rw l (omega (arith, same))
]

observed-entries :
    (n : ℕ) (src : Sketch) (p i : ℕ)
    → observed i (entries n src p) + sum_below src.bins (min p (i + 1 - src.min_idx))
      ≡ sum_below src.bins (min (p + n) (i + 1 - src.min_idx))
unfolding observed entries sum_below
observed-entries zero src p i =
    let e : p ≡ p + 0 = omega arith in
    let same = ap (λ k. sum_below src.bins (min k (i + 1 - src.min_idx))) e in omega (arith, same)
observed-entries (suc n) src p i =
    let rest = observed-entries n src (suc p) i in
    let one = bin_below src.bins p (i + 1 - src.min_idx) in
    let inside : ltb p (i + 1 - src.min_idx) ≡ leb (src.min_idx + p) i = ground arith in
    let next : p + suc n ≡ suc p + n = omega arith in
    let ends = ap (λ k. sum_below src.bins (min k (i + 1 - src.min_idx))) next in
    let here =
      one
      ∙ ap (λ b. (if b then src.bins p else 0) + sum_below src.bins (min p (i + 1 - src.min_idx)))
          inside in
    elim (Bool-cases (src.bins p == 0)) [
      | inl z ↦
          let none_here : src.bins p ≡ 0 = ground (arith, z) in
          let hidden : (if leb (src.min_idx + p) i then src.bins p else 0) ≡ 0 =
            ground (arith, none_here) in
          rw (z, entries) (omega (arith, rest, here, hidden, ends))
      | inr z ↦ rw (z, entries, observed) (omega (arith, rest, here, ends))
    ]

total-entries :
    (n : ℕ) (src : Sketch) (p : ℕ)
    → total (entries n src p) + sum_below src.bins p ≡ sum_below src.bins (p + n)
unfolding total entries sum_below
total-entries zero src p =
    let same = let e : p ≡ p + 0 = omega arith in ap (sum_below src.bins) e in omega (arith, same)
total-entries (suc n) src p =
    let rest = total-entries n src (suc p) in
    let next : p + suc n ≡ suc p + n = omega arith in
    let ends = ap (sum_below src.bins) next in
    elim (Bool-cases (src.bins p == 0)) [
      | inl z ↦
          let none_here : src.bins p ≡ 0 = ground (arith, z) in
          rw (z, entries) (omega (arith, rest, none_here, ends))
      | inr z ↦ rw (z, entries, total) (omega (arith, rest, ends))
    ]

entries-Valid :
    (n : ℕ) (src : Sketch) (p : ℕ)
    → low_index ≤ src.min_idx
    → src.min_idx + p + n ≤ high_index
    → All Valid (entries n src p)
unfolding entries
entries-Valid zero src p low high = tt
entries-Valid (suc n) src p low high =
    let rest = entries-Valid n src (suc p) low (omega (arith, high)) in
    elim (Bool-cases (src.bins p == 0)) [
      | inl z ↦ rw (z, entries) rest
      | inr z ↦
          let here : Valid (record { index = src.min_idx + p; times = src.bins p }) =
            (ground (arith, z), omega (arith, low), omega (arith, high)) in
          rw (z, entries) ((here, rest))
    ]

entries-highest :
    (n : ℕ) (src : Sketch) (p bound : ℕ)
    → src.min_idx + p + n ≤ suc bound
    → highest (entries n src p) ≤ bound
unfolding entries highest
entries-highest zero src p bound h = omega arith
entries-highest (suc n) src p bound h =
    let rest = entries-highest n src (suc p) bound (omega (arith, h)) in
    elim (Bool-cases (src.bins p == 0)) [
      | inl z ↦ rw (z, entries) rest
      | inr z ↦ rw (z, entries, highest) (omega (arith, rest, h))
    ]

-- The totals that `Merge` adds first are no part of what the bins hold.
counted-Full :
    (os : List Observation) (s : Sketch) (c z n : ℕ) (b : Bool)
    → Full os s
    → Full os (record s { count = c; zero_count = z; saturations = n; collapsed = b })
unfolding used
counted-Full os s c z n b (h, top) = (
  record {
    has = h.has;
    low = h.low;
    high = h.high;
    window = h.window;
    narrow = h.narrow;
    top = h.top;
    trimmed = h.trimmed;
    sums = h.sums;
    totals = h.totals;
  },
  top,
)

total-entries-all :
    (ys : List Observation) (s : Sketch) → Holds ys s → total (entries (used s) s 0) ≡ total ys
unfolding sum_below
total-entries-all ys s h =
    let all = total-entries (used s) s 0 in
    let e : 0 + used s ≡ used s = omega arith in
    let same = ap (sum_below s.bins) e in omega (arith, all, same, held-total ys s h)

observed-entries-all :
    (s : Sketch) (i : ℕ) → Trimmed s → observed i (entries (used s) s 0) ≡ at_or_below s i
unfolding sum_below
observed-entries-all s i t =
    let all = observed-entries (used s) s 0 i in
    let e : min (0 + used s) (i + 1 - s.min_idx) ≡ min (i + 1 - s.min_idx) (used s) = omega arith in
    let none_below : min 0 (i + 1 - s.min_idx) ≡ 0 = omega arith in
    let same = ap (sum_below s.bins) e in
    let zeros = ap (sum_below s.bins) none_below in
    omega (arith, all, same, zeros, sum_below-Trimmed s (i + 1 - s.min_idx) t)

merge_aligned-Ran :
    (xs ys : List Observation) (s other : Sketch)
    → Full xs s
    → Full ys other
    → total xs + total ys ≤ max_uint32
    → Ran (onto xs (entries (used other) other 0)) (merge_aligned s other)
unfolding merge_aligned used
merge_aligned-Ran xs ys s other f (h, top) small =
    let es = entries (used other) other 0 in
    let t : Sketch = record s {
      count = s.count + other.count;
      zero_count = s.zero_count + other.zero_count;
      saturations = s.saturations + other.saturations;
      collapsed = s.collapsed || other.collapsed;
    } in
    let started : not other.has_bins ≡ false = ap not h.has in
    let valid = entries-Valid (used other) other 0 h.low (omega (arith, h.high, h.window)) in
    let fits : total xs + total es ≤ max_uint32 =
      omega (arith, total-entries-all ys other h, small) in
    let ran =
      add_all-Ran xs es t valid (counted-Full xs s t.count t.zero_count t.saturations t.collapsed f)
        fits in
    rw (started, merge_bins-eq-add_all (used other) other 0 t) ran

-- Two sketches of one scale, which hold observations in range whose total fits a bin, merge without
-- a panic when the other counts anything. The totals of their bins add up, and so does the number
-- at or below each index that is at most 511 below both highest indexes.
pub merge_adds :
    (xs ys : List Observation) (s other : Sketch) (i : ℕ)
    → Full xs s
    → Full ys other
    → s.scale ≡ other.scale
    → 0 < other.count
    → total xs + total ys ≤ max_uint32
    → s.max_idx < i + sketch_max_bins
    → other.max_idx < i + sketch_max_bins
    → (after : Sketch) × (merge s other ≡ some after)
      × (after.bin_total ≡ s.bin_total + other.bin_total)
      × (at_or_below after i ≡ at_or_below s i + at_or_below other i)
unfolding merge used
merge_adds xs ys s other i f g scales some_count small near_s near_other =
    let (after, ran, (h, top)) = merge_aligned-Ran xs ys s other f g small in
    let es = entries (used other) other 0 in
    let counts : (other.count == 0) ≡ false = ground (arith, some_count) in
    let finer : ltb s.scale other.scale ≡ false = ground (arith, scales) in
    let coarser : ltb other.scale s.scale ≡ false = ground (arith, scales) in
    let high = entries-highest (used other) other 0 other.max_idx (omega (arith, g.0.window)) in
    let near : after.max_idx < i + sketch_max_bins =
      omega (arith, top, highest-onto xs es, f.1, high, near_s, near_other) in
    (
      after,
      rw (counts, merge, finer, coarser) ran,
      omega (
        arith,
        h.totals,
        f.0.totals,
        g.0.totals,
        total-onto xs es,
        total-entries-all ys other g.0,
      ),
      omega (
        arith,
        h.sums i near,
        f.0.sums i near_s,
        observed-onto i xs es,
        observed-entries-all other i g.0.trimmed,
      ),
    )
