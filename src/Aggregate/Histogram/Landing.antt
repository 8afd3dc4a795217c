-- ===== src/Aggregate/Histogram/Landing.antt =====
-- histogram.go: where the buckets of a point land at the scale of the sketch.
use otelcontext.Base.{
  ℕ, zero, suc, ◌+◌, ◌-◌, ◌*◌, ◌/◌, ◌%◌, ◌^◌, ◌<◌, ◌≤◌, ◌≡◌, refl, ◌∙◌, ap, inl, inr, List, [], ◌∷◌,
  arith, ◌==◌, Bool-cases, if◌then◌else◌, length, ltb, true,
}
use otelcontext.Aggregate.Sketch.{two_31, two_32, shifted}
use otelcontext.Aggregate.Sketch.Counts.{Observation}
use otelcontext.Aggregate.Histogram.{bucket_index, index_shift}
use otelcontext.Aggregate.Histogram.Buckets.{bucket_observations}

-- A bucket of scale `4 + n` and signed index `i` lies within the bucket `⌊i / 2^n⌋` of scale 4, and
-- a bucket of a coarser scale stays. Both indexes are 2^31 above the signed ones.
unfoldable pub landing : ℕ → ℕ → ℕ
landing k i = let w = 2 ^ (k - 4) in (i + two_31 * w - two_31) / w

-- The counted buckets of a point of scale `k`, the first of which has the index `i`.
unfoldable pub landings : ℕ → ℕ → List ℕ → List Observation
landings k i [] = []
landings k i (c ∷ cs) =
    let rest = landings k (i + 1) cs in
    if c == 0 then rest else record { index = landing k i; times = c } ∷ rest

power_pos : (n : ℕ) → 1 ≤ 2 ^ n
power_pos zero = omega arith
power_pos (suc n) = omega (arith, power_pos n)

shifted_lem : (n x : ℕ) → shifted n x ≡ (x + two_31 * 2 ^ n - two_31) / 2 ^ n
unfolding shifted
shifted_lem n x =
    let e : x + two_31 * (2 ^ n - 1) ≡ x + two_31 * 2 ^ n - two_31 = omega (arith, power_pos n) in
    ap (λ y. y / 2 ^ n) e

bucket_index_lem :
    (n offset i : ℕ)
    → offset + i < two_32
    → bucket_index n offset i ≡ (offset + i + two_31 * 2 ^ n - two_31) / 2 ^ n
unfolding bucket_index
bucket_index_lem zero offset i h = omega (arith, h)
bucket_index_lem (suc n) offset i h =
    let e : (offset + i) % two_32 ≡ offset + i = omega (arith, h) in
    let finer : ltb 0 (suc n) ≡ true = ground arith in
    rw (e, finer) (shifted_lem (suc n) (offset + i))

pub bucket_observations-landings :
    (k offset i : ℕ) (cs : List ℕ)
    → offset + i + length cs < two_32
    → bucket_observations (index_shift k) offset i cs ≡ landings k (offset + i) cs
unfolding bucket_observations landings landing index_shift
bucket_observations-landings k offset i [] h = refl
bucket_observations-landings k offset i (c ∷ cs) h =
    let at = bucket_index_lem (k - 4) offset i (omega (arith, h)) in
    let next : offset + (i + 1) ≡ offset + i + 1 = omega arith in
    let later =
      bucket_observations-landings k offset (i + 1) cs (omega (arith, h))
      ∙ ap (λ j. landings k j cs) next in
    elim (Bool-cases (c == 0)) [
      | inl z ↦ rw (z, bucket_observations, landings) later
      | inr z ↦
          rw (z, bucket_observations, landings) (λ t. record { index = at t; times = c } ∷ later t)
    ]
