-- ===== src/Aggregate/Sketch/Counts.antt =====
-- sketch.go: the sums of the bins are the counts of the observations, whatever their order.
use otelcontext.Base.{
  ℕ, suc, ◌+◌, ◌-◌, ◌≤◌, ◌<◌, ◌≡◌, refl, sym, ◌∙◌, ap, inl, inr, true, false, Option, some, List,
  [], ◌∷◌, arith, ltb, leb, if◌then◌else◌, max, Bool-cases,
}
use otelcontext.Aggregate.Sketch.{
  Sketch, max_uint32, sketch_max_bins, sum_below, used, put_at, collapse_to, extend_to,
}
use otelcontext.Aggregate.Sketch.Sums.{sum_below-congr, sum_below-zero, sum_below-shift}
use otelcontext.Aggregate.Sketch.Windows.{
  at_or_below, Trimmed, put_at_lem, stored, stored-at_or_below, stored-Trimmed, extend_to-bins,
  collapse_to-Collapsed, bin-le-sum_below,
}

-- The indexes whose differences do not wrap: those from -2^30 to 2^30, biased.
abbrev pub low_index : ℕ
low_index = 1073741824

abbrev pub high_index : ℕ
high_index = 3221225472

-- A bucket index with a number of observations.
pub record Observation : Type 0 where
  pub index : ℕ
  pub times : ℕ

-- The observations at or below an index.
unfoldable pub observed : ℕ → List Observation → ℕ
observed i [] = 0
observed i (o ∷ os) = (if leb o.index i then o.times else 0) + observed i os

unfoldable pub total : List Observation → ℕ
total [] = 0
total (o ∷ os) = o.times + total os

unfoldable pub highest : List Observation → ℕ
highest [] = 0
highest (o ∷ os) = max o.index (highest os)

pub observed-highest : (i : ℕ) (os : List Observation) → highest os ≤ i → observed i os ≡ total os
unfolding observed total highest
observed-highest i [] h = refl
observed-highest i (o ∷ os) h =
    let here : leb o.index i ≡ true = ground (arith, h) in
    let rest = observed-highest i os (omega (arith, h)) in rw here (ap (λ n. o.times + n) rest)

-- A sketch that holds the observations, up to its floor.
pub record Holds (os : List Observation) (s : Sketch) : Type 0 where
  pub has : s.has_bins ≡ true
  pub low : low_index ≤ s.min_idx
  pub high : s.max_idx < high_index
  pub window : s.min_idx ≤ s.max_idx
  pub narrow : s.max_idx < s.min_idx + sketch_max_bins
  pub top : highest os ≤ s.max_idx
  pub trimmed : Trimmed s
  pub sums : (i : ℕ) → s.max_idx < i + sketch_max_bins → at_or_below s i ≡ observed i os
  pub totals : s.bin_total ≡ total os

pub held-total :
    (os : List Observation) (s : Sketch) → Holds os s → sum_below s.bins (used s) ≡ total os
unfolding used
held-total os s h =
    let e : s.max_idx - s.min_idx + 1 ≡ s.max_idx + 1 - s.min_idx = omega (arith, h.window) in
    ap (sum_below s.bins) e ∙ h.sums s.max_idx (omega arith) ∙ observed-highest s.max_idx os h.top

below_used :
    (s : Sketch) (index : ℕ) → s.min_idx ≤ index → index ≤ s.max_idx → index - s.min_idx < used s
unfolding used
below_used s index low high = omega (arith, low, high)

-- What the end of `add` returns for the observations so far and one more.
abbrev pub Takes : List Observation → Observation → Sketch → Option Sketch → Type 0
Takes os o s r =
    (after : Sketch) × (r ≡ some after) × Holds (o ∷ os) after × (after.max_idx ≡ s.max_idx)

-- A bin of the window takes an observation that counts alike from the floor on.
pub put_at-Takes :
    (os : List Observation) (o : Observation) (s : Sketch) (index : ℕ)
    → Holds os s
    → s.min_idx ≤ index
    → index ≤ s.max_idx
    → o.index ≤ s.max_idx
    → o.times + total os ≤ max_uint32
    → ((i : ℕ) → s.max_idx < i + sketch_max_bins → leb o.index i ≡ leb index i)
    → Takes os o s (put_at s index o.times)
unfolding observed total highest
put_at-Takes os o s index h low high inside small alike =
    let pos = index - s.min_idx in
    let cur = bin-le-sum_below s.bins pos (used s) (below_used s index low high) in
    let room : s.bins pos + o.times ≤ max_uint32 = omega (arith, cur, held-total os s h, small) in
    let done = put_at_lem s index o.times low (omega (arith, high, h.narrow)) room in
    let sums : (i : ℕ)
        → s.max_idx < i + sketch_max_bins
        → at_or_below (stored s pos o.times) i ≡ observed i (o ∷ os) =
      λ i l.
        stored-at_or_below s index o.times i low ∙ rw (alike i l) (omega (arith, h.sums i l)) in
    (
      stored s pos o.times,
      done,
      record {
        has = h.has;
        low = h.low;
        high = h.high;
        window = h.window;
        narrow = h.narrow;
        top = omega (arith, inside, h.top);
        trimmed = stored-Trimmed s index o.times low high h.trimmed;
        sums = sums;
        totals = omega (arith, h.totals);
      },
      refl,
    )

-- The window extended down to a lower floor.
extended-sum :
    (s : Sketch) (new_min n : ℕ)
    → Trimmed s
    → new_min ≤ s.min_idx
    → sum_below (extend_to s new_min).bins n ≡ sum_below s.bins (n - (s.min_idx - new_min))
extended-sum s new_min n t h =
    let shift = s.min_idx - new_min in
    let ext = (extend_to s new_min).bins in
    let zeros : (p : ℕ) → p < shift → ext p ≡ 0 = λ p l.
      let low : ltb p shift ≡ true = ground (arith, l) in
      extend_to-bins s new_min p t h ∙ rw low refl in
    let back : (p : ℕ) → p < n - shift → ext (p + shift) ≡ s.bins p = λ p l.
      let up : ltb (p + shift) shift ≡ false = ground arith in
      let e : p + shift - shift ≡ p = omega arith in
      extend_to-bins s new_min (p + shift) t h ∙ rw up (ap s.bins e) in
    elim (Bool-cases (leb n shift)) [
      | inl l ↦
          let none_left : n - shift ≡ 0 = ground (arith, l) in
          sum_below-zero ext n (λ p k. zeros p (ground (arith, k, l)))
          ∙ sym (
              ap (sum_below s.bins) none_left
              ∙ sum_below-zero s.bins 0 (λ p k. absurd (omega (arith, k))))
      | inr l ↦
          let e : n ≡ shift + (n - shift) = ground (arith, l) in
          let parts = ap (sum_below ext) e ∙ sum_below-shift ext shift (n - shift) in
          let low = sum_below-zero ext shift zeros in
          let high = sum_below-congr (λ p. ext (p + shift)) s.bins (n - shift) back in
          omega (arith, parts, low, high)
    ]

pub extend_to-Holds :
    (os : List Observation) (s : Sketch) (new_min : ℕ)
    → Holds os s
    → low_index ≤ new_min
    → new_min ≤ s.min_idx
    → s.max_idx < new_min + sketch_max_bins
    → Holds os (extend_to s new_min)
unfolding extend_to used
extend_to-Holds os s new_min h low below narrow =
    let shift = s.min_idx - new_min in
    record {
      has = h.has;
      low = low;
      high = h.high;
      window = omega (arith, h.window, below);
      narrow = narrow;
      top = h.top;
      trimmed = λ p l.
          let up : ltb p shift ≡ false = ground (arith, l, below, h.window) in
          extend_to-bins s new_min p h.trimmed below
          ∙ rw up (h.trimmed (p - shift) (omega (arith, l, below, h.window)));
      sums = λ i l.
          let e : i + 1 - new_min - shift ≡ i + 1 - s.min_idx = omega (arith, below) in
          extended-sum s new_min (i + 1 - new_min) h.trimmed below
          ∙ ap (sum_below s.bins) e
          ∙ h.sums i l;
      totals = h.totals;
    }

-- The window moved up to an index above it.
pub raise-Holds :
    (os : List Observation) (s : Sketch) (index : ℕ)
    → Holds os s
    → s.max_idx < index
    → index < high_index
    → index < s.min_idx + sketch_max_bins
    → Holds os (record s { max_idx = index })
unfolding used
raise-Holds os s index h above high narrow = record {
  has = h.has;
  low = h.low;
  high = high;
  window = omega (arith, h.window, above);
  narrow = narrow;
  top = omega (arith, h.top, above);
  trimmed = λ p l. h.trimmed p (omega (arith, l, above, h.window));
  sums = λ i l. h.sums i (omega (arith, l, above));
  totals = h.totals;
}

pub collapse-Holds :
    (os : List Observation) (s : Sketch) (index : ℕ)
    → Holds os s
    → s.max_idx < index
    → index < high_index
    → s.min_idx + sketch_max_bins ≤ index
    → total os ≤ max_uint32
    → Holds os (record (collapse_to s (index + 1 - sketch_max_bins)) { max_idx = index })
unfolding used
collapse-Holds os s index h above high wide small =
    let new_min = index + 1 - sketch_max_bins in
    let shift = new_min - s.min_idx in
    let after = collapse_to s new_min in
    let fits : sum_below s.bins (used s) ≤ max_uint32 = omega (arith, held-total os s h, small) in
    let c = collapse_to-Collapsed s new_min h.trimmed fits in
    record {
      has = c.kept ∙ h.has;
      low = omega (arith, c.floor, h.low, wide);
      high = high;
      window = omega (arith, c.floor);
      narrow = omega (arith, c.floor, wide);
      top = omega (arith, h.top, above);
      trimmed = λ p l.
          c.above p (omega (arith, l, c.floor, wide))
          ∙ h.trimmed (p + shift) (omega (arith, l, c.floor, wide, h.narrow));
      sums = λ i l.
          let e : i + 1 - after.min_idx ≡ suc (i - new_min) = omega (arith, c.floor, l, wide) in
          let back : shift + suc (i - new_min) ≡ i + 1 - s.min_idx = omega (arith, l, wide) in
          ap (sum_below after.bins) e
          ∙ c.sums (i - new_min)
          ∙ ap (sum_below s.bins) back
          ∙ h.sums i (omega (arith, l, above));
      totals = c.totals ∙ h.totals;
    }

-- The mark of a collapse is no part of what a sketch holds.
pub marked-Holds :
    (os : List Observation) (s : Sketch) → Holds os s → Holds os (record s { collapsed = true })
unfolding used
marked-Holds os s h = record {
  has = h.has;
  low = h.low;
  high = h.high;
  window = h.window;
  narrow = h.narrow;
  top = h.top;
  trimmed = h.trimmed;
  sums = h.sums;
  totals = h.totals;
}
