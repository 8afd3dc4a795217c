-- ===== src/Aggregate/Histogram/Buckets.antt =====
-- histogram.go: what the loop over the buckets leaves in the sketch.
use otelcontext.Base.{
  ℕ, ◌⊎◌, ◌+◌, ◌-◌, ◌≤◌, ◌≡◌, refl, ◌∙◌, ap, subst, inl, inr, true, false, not, Option, none, some,
  List, [], ◌∷◌, arith, ltb, leb, ◌==◌, if◌then◌else◌, Bool-cases, Option-cases, All, min,
}
use otelcontext.Aggregate.Sketch.{
  Sketch, add, add_above, add_below, add_at, put_at, put_merged, collapse_to, raise_floor,
  extend_to, first_bin, position, diff, observe_bucket, lowest, two_31, sketch_max_bins, used,
  max_uint32, new_sketch, sum_below,
}
use otelcontext.Aggregate.Sketch.Counts.{Observation, total}
use otelcontext.Aggregate.Sketch.Runs.{Valid, Full, single, single-Full, add-Added}
use otelcontext.Aggregate.Sketch.Order.{onto}
use otelcontext.Aggregate.Histogram.{observe_buckets, bucket_index}

-- The fields that adding to a bin leaves alone.
pub record Kept (s t : Sketch) : Type 0 where
  pub count : t.count ≡ s.count
  pub zeros : t.zero_count ≡ s.zero_count
  pub scale : t.scale ≡ s.scale

add_at-Kept : (s : Sketch) (p n : ℕ) → Kept s (add_at s p n).0
unfolding add_at
add_at-Kept s p n = elim (Bool-cases (leb (s.bins p + n) max_uint32)) [
  | inl h ↦ rw h (record { count = refl; zeros = refl; scale = refl })
  | inr h ↦ rw h (record { count = refl; zeros = refl; scale = refl })
]

Kept-trans : (s t u : Sketch) → Kept s t → Kept t u → Kept s u
Kept-trans s t u h k = record {
  count = k.count ∙ h.count;
  zeros = k.zeros ∙ h.zeros;
  scale = k.scale ∙ h.scale;
}

raise_floor-Kept : (s : Sketch) (i : ℕ) → Kept s (raise_floor s i)
unfolding raise_floor
raise_floor-Kept s i = elim (Bool-cases (leb (used s) (i - s.min_idx))) [
  | inl h ↦ rw h (record { count = refl; zeros = refl; scale = refl })
  | inr h ↦ rw h (record { count = refl; zeros = refl; scale = refl })
]

put_merged-Kept : (s : Sketch) (n : ℕ) → Kept s (put_merged s n)
unfolding put_merged
put_merged-Kept s n =
    let k = add_at-Kept s 0 n in
    elim (Bool-cases (n == 0)) [
      | inl h ↦ rw h (record { count = refl; zeros = refl; scale = refl })
      | inr h ↦ rw h (record { count = k.count; zeros = k.zeros; scale = k.scale })
    ]

-- A sketch that came out of `s`, if any did.
abbrev pub KeptBy : Sketch → Option Sketch → Type 0
KeptBy s none = Unit
KeptBy s (some t) = Kept s t

put_at-KeptBy : (s b : Sketch) (i n : ℕ) → Kept s b → KeptBy s (put_at b i n)
unfolding put_at
put_at-KeptBy s b i n h = elim (Option-cases (position (diff i b.min_idx))) [
  | inl e ↦ rw (e, put_at, KeptBy) tt
  | inr (p, e) ↦
      let k = Kept-trans s b (add_at b p n).0 h (add_at-Kept b p n) in
      rw (e, put_at, KeptBy) (record { count = k.count; zeros = k.zeros; scale = k.scale })
]

add_above-KeptBy : (s : Sketch) (i n : ℕ) → KeptBy s (add_above s i n)
unfolding add_above collapse_to
add_above-KeptBy s i n = elim (Bool-cases (leb (two_31 + sketch_max_bins) (diff i s.min_idx))) [
  | inl h ↦
      let low = i + 1 - sketch_max_bins in
      let raised = raise_floor-Kept s low in
      let k =
        Kept-trans s (raise_floor s low) (collapse_to s low) raised (
          put_merged-Kept (raise_floor s low)
            (sum_below s.bins (min (low - s.min_idx) (used s)))) in
      rw h (
        put_at-KeptBy s (record (collapse_to s low) { max_idx = i }) i n
          (record { count = k.count; zeros = k.zeros; scale = k.scale }))
  | inr h ↦ rw h (
      put_at-KeptBy s (record s { max_idx = i }) i n
        (record { count = refl; zeros = refl; scale = refl }))
]

add_below-KeptBy : (s : Sketch) (i n : ℕ) → KeptBy s (add_below s i n)
unfolding add_below extend_to
add_below-KeptBy s i n = elim (Bool-cases (ltb i (lowest s))) [
  | inl h ↦ rw h (
      put_at-KeptBy s (record (extend_to s (lowest s)) { collapsed = true }) (lowest s) n
        (record { count = refl; zeros = refl; scale = refl }))
  | inr h ↦
      rw h
        (put_at-KeptBy s (extend_to s i) i n (record { count = refl; zeros = refl; scale = refl }))
]

pub add-KeptBy : (s : Sketch) (i n : ℕ) → KeptBy s (add s i n)
unfolding add first_bin
add-KeptBy s i n =
    let start = record s { has_bins = true; min_idx = i; max_idx = i } in
    let k = add_at-Kept start 0 n in
    elim (Bool-cases (n == 0)) [
      | inl e ↦ rw (e, add) (record { count = refl; zeros = refl; scale = refl })
      | inr e ↦ elim (Bool-cases (not s.has_bins)) [
        | inl b ↦ rw (e, add, b) (record { count = k.count; zeros = k.zeros; scale = k.scale })
        | inr b ↦ elim (Bool-cases (ltb s.max_idx i)) [
          | inl a ↦ rw (e, add, b, a) (add_above-KeptBy s i n)
          | inr a ↦ elim (Bool-cases (ltb i s.min_idx)) [
            | inl l ↦ rw (e, add, b, a, l) (add_below-KeptBy s i n)
            | inr l ↦
                rw (e, add, b, a, l)
                  (put_at-KeptBy s s i n (record { count = refl; zeros = refl; scale = refl }))
          ]
        ]
      ]
    ]

-- The count is no part of what a sketch holds.
counted-Full :
    (os : List Observation) (s : Sketch) (c : ℕ) → Full os s → Full os (record s { count = c })
unfolding used
counted-Full os s c (h, top) = (
  record {
    has = h.has;
    low = h.low;
    high = h.high;
    window = h.window;
    narrow = h.narrow;
    top = h.top;
    trimmed = h.trimmed;
    sums = h.sums;
    totals = h.totals;
  },
  top,
)

-- The observations that the buckets stand for.
unfoldable pub bucket_observations : ℕ → ℕ → ℕ → List ℕ → List Observation
bucket_observations shift offset i [] = []
bucket_observations shift offset i (c ∷ cs) =
    let rest = bucket_observations shift offset (i + 1) cs in
    if c == 0 then rest else record { index = bucket_index shift offset i; times = c } ∷ rest

-- An empty sketch of the scale, or one that holds the observations.
abbrev pub Started : ℕ → List Observation → Sketch → Type 0
Started scale os s = ((os ≡ []) × (s ≡ new_sketch scale)) ⊎ Full os s

-- How one bucket is taken.
Taken : List Observation → Observation → Sketch → Type 0
Taken os o s =
    (t : Sketch) × (observe_bucket s o.index o.times ≡ some t)
    × Full (o ∷ os) t
    × (t.count ≡ s.count + o.times)
    × (t.zero_count ≡ s.zero_count)
    × (t.scale ≡ s.scale)

first-Taken :
    (scale : ℕ) (o : Observation) → Valid o → o.times ≤ max_uint32 → Taken [] o (new_sketch scale)
unfolding observe_bucket Taken add first_bin add_at new_sketch
first-Taken scale o v small =
    let some_times : (o.times == 0) ≡ false = ground (arith, v.0) in
    let room : leb (0 + o.times) max_uint32 ≡ true = ground (arith, small) in
    (
      single scale (0 + o.times) o,
      rw (some_times, observe_bucket, add, room) refl,
      single-Full scale (0 + o.times) o v,
      refl,
      refl,
      refl,
    )

next-Taken :
    (os : List Observation) (o : Observation) (s : Sketch)
    → Valid o
    → Full os s
    → o.times + total os ≤ max_uint32
    → Taken os o s
unfolding observe_bucket Taken
next-Taken os o s v h small =
    let counted = record s { count = s.count + o.times } in
    let (t, done, full) =
      add-Added os o counted v (counted-Full os s (s.count + o.times) h) small in
    let k : Kept counted t = subst (KeptBy counted) done (add-KeptBy counted o.index o.times) in
    let some_times : (o.times == 0) ≡ false = ground (arith, v.0) in
    (t, rw (some_times, observe_bucket) done, full, k.count, k.zeros, k.scale)

observe_bucket-Taken :
    (scale : ℕ) (os : List Observation) (o : Observation) (s : Sketch)
    → Valid o
    → Started scale os s
    → o.times + total os ≤ max_uint32
    → Taken os o s
observe_bucket-Taken scale os o s v (inr h) small = next-Taken os o s v h small
observe_bucket-Taken scale os o s v (inl (no_os, new)) small =
    rw (no_os, new) (first-Taken scale o v (omega (arith, small)))

-- What the loop ends in.
unfoldable pub Looped : ℕ → ℕ → ℕ → ℕ → List ℕ → List Observation → Sketch → Type 0
Looped scale shift offset i cs done s =
    let os = bucket_observations shift offset i cs in
    (t : Sketch) × (observe_buckets shift offset i cs s ≡ some t)
    × Started scale (onto done os) t
    × (t.count ≡ s.count + total os)
    × (t.zero_count ≡ s.zero_count)
    × (t.scale ≡ s.scale)

pub observe_buckets-Looped :
    (scale shift offset i : ℕ) (cs : List ℕ) (done : List Observation) (s : Sketch)
    → All Valid (bucket_observations shift offset i cs)
    → Started scale done s
    → total done + total (bucket_observations shift offset i cs) ≤ max_uint32
    → Looped scale shift offset i cs done s
unfolding observe_buckets bucket_observations total Looped Taken
observe_buckets-Looped scale shift offset i [] done s v h small =
    (s, refl, h, omega arith, refl, refl)
observe_buckets-Looped scale shift offset i (c ∷ cs) done s v h small =
    let o : Observation = record { index = bucket_index shift offset i; times = c } in
    let later = bucket_observations shift offset (i + 1) cs in
    elim (Bool-cases (c == 0)) [
      | inl z ↦
          let e : bucket_observations shift offset i (c ∷ cs) ≡ later = rw z refl in
          let rest =
            observe_buckets-Looped scale shift offset (i + 1) cs done s (subst (All Valid) e v) h
              (omega (arith, small, ap total e)) in
          rw z rest
      | inr z ↦
          let e : bucket_observations shift offset i (c ∷ cs) ≡ (o ∷ later) = rw z refl in
          let valid = subst (All Valid) e v in
          let within : total done + (c + total later) ≤ max_uint32 =
            omega (arith, small, ap total e) in
          let (t, taken, full, counted, zeros, scaled) =
            observe_bucket-Taken scale done o s valid.0 h (omega (arith, within)) in
          let (u, rest, more, counts, zero_counts, scales) =
            observe_buckets-Looped scale shift offset (i + 1) cs (o ∷ done) t valid.1 (inr full)
              (omega (arith, within)) in
          rw (z, taken)
            (u, rest, more, omega (arith, counts, counted), zero_counts ∙ zeros, scales ∙ scaled)
    ]
