-- ===== src/Aggregate/Sketch/Order.antt =====
-- sketch.go: after a sequence of observations, in whatever order.
use otelcontext.Base.{
  ℕ, ◌+◌, ◌-◌, ◌≤◌, ◌<◌, ◌≡◌, refl, sym, ◌∙◌, ap, subst, Option, none, some, List, [], ◌∷◌, arith,
  leb, if◌then◌else◌, max, All,
}
use mathlib.Core.List.{Permᴰ}
use mathlib.Core.List.Permᴰ.{nil, cons, swap, trans}
use otelcontext.Aggregate.Sketch.{Sketch, two_31, max_uint32, sketch_max_bins, new_sketch, add}
use otelcontext.Aggregate.Sketch.Sums.{sum_below-zero}
use otelcontext.Aggregate.Sketch.Windows.{at_or_below}
use otelcontext.Aggregate.Sketch.Counts.{Observation, observed, total, highest}
use otelcontext.Aggregate.Sketch.Runs.{Valid, Full, add-Added, add_first-Added}

unfoldable pub add_all : Sketch → List Observation → Option Sketch
add_all s [] = some s
add_all s (o ∷ os) = elim (add s o.index o.times) [ none ↦ none | some t ↦ add_all t os ]

-- The observations so far, the latest first.
abbrev pub onto : List Observation → List Observation → List Observation
onto done [] = done
onto done (o ∷ os) = onto (o ∷ done) os

pub observed-onto :
    (i : ℕ) (done os : List Observation)
    → observed i (onto done os) ≡ observed i done + observed i os
unfolding observed
observed-onto i done [] = omega arith
observed-onto i done (o ∷ os) = omega (arith, observed-onto i (o ∷ done) os)

pub total-onto : (done os : List Observation) → total (onto done os) ≡ total done + total os
unfolding total
total-onto done [] = omega arith
total-onto done (o ∷ os) = omega (arith, total-onto (o ∷ done) os)

pub highest-onto :
    (done os : List Observation) → highest (onto done os) ≡ max (highest done) (highest os)
unfolding highest
highest-onto done [] = omega arith
highest-onto done (o ∷ os) = omega (arith, highest-onto (o ∷ done) os)

-- What a run ends in.
abbrev pub Ran : List Observation → Option Sketch → Type 0
Ran os r = (after : Sketch) × (r ≡ some after) × Full os after

pub add_all-Ran :
    (done os : List Observation) (s : Sketch)
    → All Valid os
    → Full done s
    → total done + total os ≤ max_uint32
    → Ran (onto done os) (add_all s os)
unfolding add_all total
add_all-Ran done [] s v h small = (s, refl, h)
add_all-Ran done (o ∷ os) s v h small =
    let (t, one, held) = add-Added done o s v.0 h (omega (arith, small)) in
    let (after, rest, full) = add_all-Ran (o ∷ done) os t v.1 held (omega (arith, small)) in
    (after, rw (one, add_all) rest, full)

-- From an empty sketch, observations in range whose total fits a bin are all taken without a
-- panic. The total of the bins is the number of the observations, and from 511 below the highest
-- index on, the bins at or below an index hold as many as were observed at or below it.
pub add_all_counts :
    (scale : ℕ) (os : List Observation) (i : ℕ)
    → All Valid os
    → total os ≤ max_uint32
    → highest os < i + sketch_max_bins
    → (after : Sketch) × (add_all (new_sketch scale) os ≡ some after)
      × (after.bin_total ≡ total os)
      × (at_or_below after i ≡ observed i os)
unfolding add_all total observed highest new_sketch
add_all_counts scale [] i v small above =
    (new_sketch scale, refl, refl, sum_below-zero (λ p. 0) (i + 1 - two_31) (λ p l. refl))
add_all_counts scale (o ∷ os) i v small above =
    let (t, one, held) = add_first-Added scale o v.0 (omega (arith, small)) in
    let (after, rest, full) = add_all-Ran (o ∷ []) os t v.1 held (omega (arith, small)) in
    let top : after.max_idx < i + sketch_max_bins =
      omega (arith, full.1, highest-onto (o ∷ []) os, above) in
    (
      after,
      rw (one, add_all) rest,
      omega (arith, full.0.totals, total-onto (o ∷ []) os),
      omega (arith, full.0.sums i top, observed-onto i (o ∷ []) os),
    )

observed-Perm : (i : ℕ) (xs ys : List Observation) → Permᴰ xs ys → observed i xs ≡ observed i ys
unfolding observed
observed-Perm i _ _ nil = refl
observed-Perm i _ _ (cons e p) =
    let here = ap (λ o. if leb (Observation.index o) i then Observation.times o else 0) e in
    omega (arith, here, observed-Perm i _ _ p)
observed-Perm i _ _ (swap e f) =
    let first = ap (λ o. if leb (Observation.index o) i then Observation.times o else 0) e in
    let second = ap (λ o. if leb (Observation.index o) i then Observation.times o else 0) f in
    omega (arith, first, second)
observed-Perm i _ _ (trans p q) = observed-Perm i _ _ p ∙ observed-Perm i _ _ q

total-Perm : (xs ys : List Observation) → Permᴰ xs ys → total xs ≡ total ys
unfolding total
total-Perm _ _ nil = refl
total-Perm _ _ (cons e p) = omega (arith, ap Observation.times e, total-Perm _ _ p)
total-Perm _ _ (swap e f) = omega (arith, ap Observation.times e, ap Observation.times f)
total-Perm _ _ (trans p q) = total-Perm _ _ p ∙ total-Perm _ _ q

highest-Perm : (xs ys : List Observation) → Permᴰ xs ys → highest xs ≡ highest ys
unfolding highest
highest-Perm _ _ nil = refl
highest-Perm _ _ (cons e p) = omega (arith, ap Observation.index e, highest-Perm _ _ p)
highest-Perm _ _ (swap e f) = omega (arith, ap Observation.index e, ap Observation.index f)
highest-Perm _ _ (trans p q) = highest-Perm _ _ p ∙ highest-Perm _ _ q

Valid-Perm : (xs ys : List Observation) → Permᴰ xs ys → All Valid xs → All Valid ys
Valid-Perm _ _ nil v = v
Valid-Perm _ _ (cons e p) v = (subst Valid e v.0, Valid-Perm _ _ p v.1)
Valid-Perm _ _ (swap e f) v = (subst Valid f v.1.0, (subst Valid e v.0, v.1.1))
Valid-Perm _ _ (trans p q) v = Valid-Perm _ _ q (Valid-Perm _ _ p v)

-- Two orders of the same observations, in range and with a total that fits a bin, lead from an
-- empty sketch to bins with the same total, and with the same number of observations at or below
-- each index from 511 below the highest on.
pub order_irrelevant :
    (scale : ℕ) (xs ys : List Observation) (i : ℕ)
    → Permᴰ xs ys
    → All Valid xs
    → total xs ≤ max_uint32
    → highest xs < i + sketch_max_bins
    → (a : Sketch) × (b : Sketch) × (add_all (new_sketch scale) xs ≡ some a)
      × (add_all (new_sketch scale) ys ≡ some b)
      × (a.bin_total ≡ b.bin_total)
      × (at_or_below a i ≡ at_or_below b i)
order_irrelevant scale xs ys i p v small above =
    let t = total-Perm xs ys p in
    let h = highest-Perm xs ys p in
    let (a, ran_a, total_a, sum_a) = add_all_counts scale xs i v small above in
    let (b, ran_b, total_b, sum_b) =
      add_all_counts scale ys i (Valid-Perm xs ys p v) (omega (arith, small, t))
        (omega (arith, above, h)) in
    (a, b, ran_a, ran_b, total_a ∙ t ∙ sym total_b, sum_a ∙ observed-Perm i xs ys p ∙ sym sum_b)
