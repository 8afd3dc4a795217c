-- ===== src/Aggregate/Sketch/Windows.antt =====
-- sketch.go: what each step of `add` does to the window and its sums, for indexes whose differences
-- do not wrap.
use otelcontext.Base.{
  ℕ, zero, suc, ◌+◌, ◌-◌, ◌≤◌, ◌<◌, ◌≡◌, refl, sym, ◌∙◌, ap, inl, inr, true, false, some, arith,
  ltb, leb, ◌==◌, if◌then◌else◌, min, Bool-cases,
}
use otelcontext.Aggregate.Sketch.{
  Sketch, diff, position, two_31, two_32, max_uint32, sketch_max_bins, sum_below, set_bin, moved_up,
  moved_down, cleared, used, add_at, put_at, raise_floor, put_merged, collapse_to, extend_to,
  lowest,
}
use otelcontext.Aggregate.Sketch.Sums.{
  sum_below-congr, sum_below-set, sum_below-set_above, sum_below-shift,
}

-- The observations at or below an index: the bins from the floor to that index.
abbrev pub at_or_below : Sketch → ℕ → ℕ
at_or_below s i = sum_below s.bins (i + 1 - s.min_idx)

-- The bins above the window are empty.
abbrev pub Trimmed : Sketch → Type 0
Trimmed s = (p : ℕ) → used s ≤ p → s.bins p ≡ 0

pub diff_lem : (a b : ℕ) → b ≤ a → a < b + two_31 → diff a b ≡ two_31 + (a - b)
unfolding diff
diff_lem a b h l = omega arith

pub position_lem : (k : ℕ) → k < sketch_max_bins → position (two_31 + k) ≡ some k
unfolding position
position_lem k h = ground arith

pub lowest_lem :
    (s : Sketch)
    → sketch_max_bins ≤ s.max_idx
    → s.max_idx < two_32
    → lowest s ≡ s.max_idx + 1 - sketch_max_bins
unfolding lowest
lowest_lem s h l = omega arith

pub bin-le-sum_below : (f : ℕ → ℕ) (p n : ℕ) → p < n → f p ≤ sum_below f n
unfolding sum_below
bin-le-sum_below f p zero h = absurd (omega arith)
bin-le-sum_below f p (suc n) h = ground (arith, h, bin-le-sum_below f p n)

-- A bin with room takes the observations.
abbrev pub stored : Sketch → ℕ → ℕ → Sketch
stored s pos n = record s {
  bins = set_bin s.bins pos (s.bins pos + n);
  bin_total = s.bin_total + n;
}

pub put_at_lem :
    (s : Sketch) (index n : ℕ)
    → s.min_idx ≤ index
    → index < s.min_idx + sketch_max_bins
    → s.bins (index - s.min_idx) + n ≤ max_uint32
    → put_at s index n ≡ some (stored s (index - s.min_idx) n)
unfolding put_at add_at
put_at_lem s index n low high room =
    let d = diff_lem index s.min_idx low (omega arith) in
    let p = position_lem (index - s.min_idx) (omega arith) in
    let fits : leb (s.bins (index - s.min_idx) + n) max_uint32 ≡ true = ground (arith, room) in
    rw (d, put_at, p, fits) refl

pub stored-at_or_below :
    (s : Sketch) (index n i : ℕ)
    → s.min_idx ≤ index
    → at_or_below (stored s (index - s.min_idx) n) i
      ≡ at_or_below s i + (if leb index i then n else 0)
stored-at_or_below s index n i low = elim (Bool-cases (leb index i)) [
  | inl h ↦ rw h (sum_below-set s.bins (index - s.min_idx) n (i + 1 - s.min_idx) (ground arith))
  | inr h ↦
      let above : i + 1 - s.min_idx ≤ index - s.min_idx = ground arith in
      let same =
        sum_below-set_above s.bins (index - s.min_idx) (s.bins (index - s.min_idx) + n)
          (i + 1 - s.min_idx) above in
      rw h (omega (arith, same))
]

pub stored-Trimmed :
    (s : Sketch) (index n : ℕ)
    → s.min_idx ≤ index
    → index ≤ s.max_idx
    → Trimmed s
    → Trimmed (stored s (index - s.min_idx) n)
unfolding set_bin used
stored-Trimmed s index n low high t p h =
    let other : (p == (index - s.min_idx)) ≡ false = ground (arith, h) in rw other (t p h)

-- Lowering the floor moves the bins up.
pub extend_to-bins :
    (s : Sketch) (new_min p : ℕ)
    → Trimmed s
    → new_min ≤ s.min_idx
    → (extend_to s new_min).bins p
      ≡ (if ltb p (s.min_idx - new_min) then 0 else s.bins (p - (s.min_idx - new_min)))
unfolding extend_to moved_up
extend_to-bins s new_min p t h =
    let shift = s.min_idx - new_min in
    elim (Bool-cases (ltb p shift)) [
      | inl l ↦ rw l refl
      | inr l ↦ elim (Bool-cases (ltb p (shift + used s))) [
        | inl w ↦ rw (l, w) refl
        | inr w ↦
            let here = t p (ground arith) in
            let there = t (p - shift) (ground arith) in rw (l, w) (here ∙ sym there)
      ]
    ]

-- Raising the floor moves them down.
pub raise_floor-bins :
    (s : Sketch) (new_min p : ℕ)
    → Trimmed s
    → (raise_floor s new_min).bins p ≡ s.bins (p + (new_min - s.min_idx))
unfolding raise_floor moved_down cleared
raise_floor-bins s new_min p t =
    let shift = new_min - s.min_idx in
    elim (Bool-cases (leb (used s) shift)) [
      | inl a ↦
          let there = t (p + shift) (ground arith) in
          elim (Bool-cases (ltb p (used s))) [
            | inl l ↦ rw (a, raise_floor, l) (sym there)
            | inr l ↦ rw (a, raise_floor, l) (t p (ground arith) ∙ sym there)
          ]
      | inr a ↦ elim (Bool-cases (ltb p (used s - shift))) [
        | inl l ↦ rw (a, raise_floor, l) refl
        | inr l ↦
            let there = t (p + shift) (ground arith) in
            elim (Bool-cases (ltb p (used s))) [
              | inl w ↦ rw (a, raise_floor, l, w) (sym there)
              | inr w ↦ rw (a, raise_floor, l, w) (t p (ground arith) ∙ sym there)
            ]
      ]
    ]

-- Above the window the sum of the bins does not change.
pub sum_below-Trimmed :
    (s : Sketch) (n : ℕ) → Trimmed s → sum_below s.bins n ≡ sum_below s.bins (min n (used s))
unfolding sum_below
sum_below-Trimmed s zero t =
    let e : min 0 (used s) ≡ 0 = omega arith in sym (ap (sum_below s.bins) e)
sum_below-Trimmed s (suc n) t = elim (Bool-cases (ltb n (used s))) [
  | inl l ↦
      let e : min (suc n) (used s) ≡ suc n = ground (arith, l) in sym (ap (sum_below s.bins) e)
  | inr l ↦
      let top : s.bins n ≡ 0 = t n (ground arith) in
      let e : min n (used s) ≡ min (suc n) (used s) = ground (arith, l) in
      let rest = sum_below-Trimmed s n t in
      let same = ap (sum_below s.bins) e in omega (arith, top, rest, same)
]

sum_below_mono : (f : ℕ → ℕ) (n k : ℕ) → sum_below f n ≤ sum_below f (n + k)
sum_below_mono f n k = omega (arith, sum_below-shift f n k)

-- No sum of bins exceeds that of the window.
pub sum_below-le : (s : Sketch) (n : ℕ) → Trimmed s → sum_below s.bins n ≤ sum_below s.bins (used s)
sum_below-le s n t =
    let m = min n (used s) in
    let e : m + (used s - m) ≡ used s = omega arith in
    let mono = sum_below_mono s.bins m (used s - m) in
    let full = ap (sum_below s.bins) e in omega (arith, sum_below-Trimmed s n t, mono, full)

sum_below-suc : (f : ℕ → ℕ) (n : ℕ) → sum_below f (suc n) ≡ sum_below f n + f n
unfolding sum_below
sum_below-suc f n = refl

above_first : (f : ℕ → ℕ) (v p : ℕ) → 0 < p → set_bin f 0 v p ≡ f p
unfolding set_bin
above_first f v p h = let other : (p == 0) ≡ false = ground (arith, h) in rw other refl

-- What `collapseTo` leaves: the sums from the new floor on, and the bins above it.
pub record Collapsed (s : Sketch) (new_min : ℕ) (after : Sketch) : Type 0 where
  pub floor : after.min_idx ≡ new_min
  pub sums : (k : ℕ) → sum_below after.bins (suc k) ≡ sum_below s.bins (new_min - s.min_idx + suc k)
  pub above : (p : ℕ) → 0 < p → after.bins p ≡ s.bins (p + (new_min - s.min_idx))
  pub totals : after.bin_total ≡ s.bin_total
  pub kept : after.has_bins ≡ s.has_bins

raise_floor-fields :
    (s : Sketch) (new_min : ℕ)
    → ((raise_floor s new_min).min_idx ≡ new_min)
      × ((raise_floor s new_min).bin_total ≡ s.bin_total)
      × ((raise_floor s new_min).has_bins ≡ s.has_bins)
unfolding raise_floor
raise_floor-fields s new_min = ground arith

raised-sum :
    (s : Sketch) (new_min k : ℕ)
    → Trimmed s
    → sum_below (raise_floor s new_min).bins k + sum_below s.bins (new_min - s.min_idx)
      ≡ sum_below s.bins (new_min - s.min_idx + k)
raised-sum s new_min k t =
    let shift = new_min - s.min_idx in
    let same =
      sum_below-congr (raise_floor s new_min).bins (λ p. s.bins (p + shift)) k
        (λ p l. raise_floor-bins s new_min p t) in
    omega (arith, same, sum_below-shift s.bins shift k)

pub collapse_to-Collapsed :
    (s : Sketch) (new_min : ℕ)
    → Trimmed s
    → sum_below s.bins (used s) ≤ max_uint32
    → Collapsed s new_min (collapse_to s new_min)
unfolding collapse_to put_merged add_at
collapse_to-Collapsed s new_min t small =
    let shift = new_min - s.min_idx in
    let r = raise_floor s new_min in
    let merged = sum_below s.bins (min shift (used s)) in
    let all = sum_below-Trimmed s shift t in
    let fields = raise_floor-fields s new_min in
    elim (Bool-cases (merged == 0)) [
      | inl z ↦
          let none_below : merged ≡ 0 = ground (arith, z) in
          rw (z, collapse_to, put_merged)
            (record {
              floor = fields.0;
              sums = λ k. omega (arith, raised-sum s new_min (suc k) t, all, none_below);
              above = λ p h. raise_floor-bins s new_min p t;
              totals = fields.1;
              kept = fields.2;
            })
      | inr z ↦
          let first : r.bins 0 ≡ s.bins shift =
            raise_floor-bins s new_min 0 t ∙ ap s.bins (omega arith) in
          let top = sum_below-le s (suc shift) t in
          let room : leb (r.bins 0 + merged) max_uint32 ≡ true =
            ground (arith, first, top, small, all, sum_below-suc s.bins shift) in
          rw (z, collapse_to, put_merged, room, add_at)
            (record {
              floor = fields.0;
              sums = λ k. omega (
                arith,
                raised-sum s new_min (suc k) t,
                all,
                sum_below-set r.bins 0 merged (suc k) (omega arith),
              );
              above = λ p h.
                  above_first r.bins (r.bins 0 + merged) p h ∙ raise_floor-bins s new_min p t;
              totals = omega (arith, fields.1);
              kept = fields.2;
            })
    ]
