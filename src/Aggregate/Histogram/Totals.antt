-- ===== src/Aggregate/Histogram/Totals.antt =====
-- histogram.go: the sums of bucket counts, and what the loop over the buckets counts.
use otelcontext.Base.{
  ℕ, ◌+◌, ◌%◌, ◌^◌, ◌<◌, ◌≡◌, refl, sym, ◌∙◌, ap, inl, inr, false, Option, none, some, List, [],
  ◌∷◌, arith, ltb, leb, ◌==◌, Bool-cases, Option-cases, subst, All,
}
use mathlib.Core.Option.{some-injective}
use otelcontext.Aggregate.Sketch.{Sketch, add, observe_bucket, new_sketch, observe_zero, downscale}
use otelcontext.Aggregate.Sketch.Counts.{total}
use otelcontext.Aggregate.Histogram.{
  sketch_default_scale, total_from, bucket_index, target_sketch, observe_buckets,
}
use otelcontext.Aggregate.Histogram.Buckets.{bucket_observations, Kept, KeptBy, add-KeptBy}

unfoldable pub counts_sum : List ℕ → ℕ
counts_sum [] = 0
counts_sum (c ∷ cs) = c + counts_sum cs

abbrev pub Word : ℕ → Type 0
Word n = n < 2 ^ 64

pub total_from_lem :
    (n : ℕ) (cs : List ℕ) → n + counts_sum cs < 2 ^ 64 → total_from n cs ≡ some (n + counts_sum cs)
unfolding total_from counts_sum
total_from_lem n [] h = ap some (omega arith)
total_from_lem n (c ∷ cs) h =
    let next : (n + c) % 2 ^ 64 ≡ n + c = omega (arith, h) in
    let up : ltb (n + c) n ≡ false = ground arith in
    rw (next, up) (total_from_lem (n + c) cs (omega (arith, h)) ∙ ap some (omega arith))

pub total_from-exact :
    (n m : ℕ) (cs : List ℕ)
    → Word n
    → All Word cs
    → total_from n cs ≡ some m
    → (m ≡ n + counts_sum cs) × Word m
unfolding total_from counts_sum
total_from-exact n m [] w h e =
    let same = some-injective n m e in (omega (arith, same), omega (arith, w, same))
total_from-exact n m (c ∷ cs) w h e = elim (Bool-cases (ltb ((n + c) % 2 ^ 64) n)) [
  | inl b ↦
      let stopped : total_from n (c ∷ cs) ≡ none = rw b refl in
      let clash : none ≡ some m = sym stopped ∙ e in absurd (cc)
  | inr b ↦
      let next : (n + c) % 2 ^ 64 ≡ n + c = ground (arith, b, h.0, w) in
      let on : total_from n (c ∷ cs) ≡ total_from (n + c) cs = rw (b, next) refl in
      let rest = total_from-exact (n + c) m cs (omega (arith, next)) h.1 (sym on ∙ e) in
      (omega (arith, rest.0), rest.1)
]

pub total-bucket_observations :
    (shift offset i : ℕ) (cs : List ℕ)
    → total (bucket_observations shift offset i cs) ≡ counts_sum cs
unfolding total bucket_observations counts_sum
total-bucket_observations shift offset i [] = refl
total-bucket_observations shift offset i (c ∷ cs) = elim (Bool-cases (c == 0)) [
  | inl z ↦
      let no_count : c ≡ 0 = ground (arith, z) in
      rw z (omega (arith, total-bucket_observations shift offset (i + 1) cs, no_count))
  | inr z ↦ rw z (ap (λ n. c + n) (total-bucket_observations shift offset (i + 1) cs))
]

-- A sketch that counts `n` more than `s`, if any came out.
unfoldable pub Counted : Sketch → ℕ → Option Sketch → Type 0
Counted s n none = Unit
Counted s n (some t) = (t.count ≡ s.count + n) × (t.zero_count ≡ s.zero_count)

observe_bucket-Counted : (s : Sketch) (i n : ℕ) → Counted s n (observe_bucket s i n)
unfolding observe_bucket Counted
observe_bucket-Counted s i n = elim (Bool-cases (n == 0)) [
  | inl z ↦ rw (z, observe_bucket, Counted) (ground (arith, z), refl)
  | inr z ↦ elim (Option-cases (add (record s { count = s.count + n }) i n)) [
    | inl e ↦ rw (z, observe_bucket, e, Counted) tt
    | inr (t, e) ↦
        let start = record s { count = s.count + n } in
        let k : Kept start t = subst (KeptBy start) e (add-KeptBy start i n) in
        rw (z, observe_bucket, e, Counted) (k.count, k.zeros)
  ]
]

pub observe_buckets-Counted :
    (shift offset i : ℕ) (cs : List ℕ) (s : Sketch)
    → Counted s (counts_sum cs) (observe_buckets shift offset i cs s)
unfolding observe_buckets counts_sum Counted
observe_buckets-Counted shift offset i [] s = (omega arith, refl)
observe_buckets-Counted shift offset i (c ∷ cs) s = elim (Bool-cases (c == 0)) [
  | inl z ↦
      let same : c + counts_sum cs ≡ counts_sum cs = ground (arith, z) in
      rw (z, same) (observe_buckets-Counted shift offset (i + 1) cs s)
  | inr z ↦ elim (Option-cases (observe_bucket s (bucket_index shift offset i) c)) [
    | inl e ↦ rw (z, e) tt
    | inr (t, e) ↦
        let one : Counted s c (some t) =
          subst (Counted s c) e (observe_bucket-Counted s (bucket_index shift offset i) c) in
        let rest = observe_buckets-Counted shift offset (i + 1) cs t in
        rw (z, e)
          (counted_further s t c (counts_sum cs) (observe_buckets shift offset (i + 1) cs t) one
            rest)
  ]
]
  where
    counted_further :
        (s t : Sketch) (n m : ℕ) (r : Option Sketch)
        → Counted s n (some t)
        → Counted t m r
        → Counted s (n + m) r
    counted_further s t n m none h k = tt
    counted_further s t n m (some u) h k = (omega (arith, h.0, k.0), k.1 ∙ h.1)

pub target_sketch-fresh :
    (n : ℕ) → ((target_sketch n).count ≡ 0) × ((target_sketch n).zero_count ≡ 0)
unfolding target_sketch downscale new_sketch
target_sketch-fresh n = elim (Bool-cases (ltb n sketch_default_scale)) [
  | inl l ↦
      let coarser : leb sketch_default_scale n ≡ false = ground (arith, l) in
      rw (l, coarser) (refl, refl)
  | inr l ↦ rw l (refl, refl)
]

pub observe_zero-counts :
    (s : Sketch) (n : ℕ)
    → ((observe_zero s n).count ≡ s.count + n) × ((observe_zero s n).zero_count ≡ s.zero_count + n)
unfolding observe_zero
observe_zero-counts s n = elim (Bool-cases (n == 0)) [
  | inl z ↦ rw z (ground (arith, z), ground (arith, z))
  | inr z ↦ rw z (refl, refl)
]
