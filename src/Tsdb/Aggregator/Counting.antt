-- ===== src/Tsdb/Aggregator/Counting.antt =====
-- aggregator.go: every ingested point is counted in the current window, and what a flush moves.
use otelcontext.Base.{
  ℕ, ◌+◌, ◌≡◌, refl, ◌∙◌, ap, ◌⊎◌, inl, inr, Bool, false, ◌&&◌, not, Option, none, some, List, [],
  ◌∷◌, ◌++◌, arith, Float64, Text, text_discrete, Option-cases, Bool-cases, if◌then◌else◌, is_some,
  length, ltb, ◌==◌,
}
use otelcontext.Base.Map.{Map, get, size}
use otelcontext.Base.Map.Weigh.{weigh, weigh-put_new, weigh-put_old, put-put}
use otelcontext.Tsdb.Aggregator.{
  RawMetric, MetricBucket, Aggregator, ingest, ingest_new, ingest_overflow, ingest_fresh,
  update_bucket, fresh_bucket, over_tenant_cap, over_global_cap, series_key, overflow_key,
  overflow_name, tenant_overflow_key, flush, send, values, FlushError, dropped,
}

module _ (fl : Float64) (Attributes : Type 0) (marshal : Attributes → Text) where
  abbrev pub count_in : MetricBucket fl Attributes marshal → ℕ
  count_in b = b.count

  -- The points that the buckets of the current window count.
  abbrev pub counted : Aggregator fl Attributes marshal → ℕ
  counted a = weigh count_in a.buckets

  -- No bucket stands under a key.
  abbrev missing : Aggregator fl Attributes marshal → Text → Bool
  missing a key = not (is_some (get text_discrete key a.buckets))

  -- The bucket that an overflow at this point would create.
  abbrev fresh :
      Aggregator fl Attributes marshal
      → RawMetric fl Attributes marshal
      → MetricBucket fl Attributes marshal
  fresh a m = fresh_bucket fl Attributes marshal a m overflow_name []

  abbrev new_overflow : Aggregator fl Attributes marshal → RawMetric fl Attributes marshal → Bool
  new_overflow a m =
      if over_tenant_cap fl Attributes marshal a m
      then missing a (tenant_overflow_key fl Attributes marshal m)
      else over_global_cap fl Attributes marshal a && missing a overflow_key

  -- A cap turns the point away, and its overflow bucket is not there yet.
  unfoldable pub opens_overflow :
      Aggregator fl Attributes marshal → RawMetric fl Attributes marshal → Bool
  opens_overflow a m = missing a (series_key fl Attributes marshal m) && new_overflow a m

  ingest_overflow-counts :
      (a : Aggregator fl Attributes marshal) (m : RawMetric fl Attributes marshal) (key : Text)
      → counted (ingest_overflow fl Attributes marshal a m key)
        ≡ counted a + (if missing a key then 2 else 1)
  unfolding ingest_overflow update_bucket fresh_bucket
  ingest_overflow-counts a m key = elim (Option-cases (get text_discrete key a.buckets)) [
    | inl h ↦ rw h (
        ap (weigh count_in) (
          put-put text_discrete key (update_bucket fl Attributes marshal (fresh a m) m) (fresh a m)
            a.buckets)
        ∙ weigh-put_new text_discrete count_in key
            (update_bucket fl Attributes marshal (fresh a m) m) a.buckets h)
    | inr (b, h) ↦
        let same =
          ap (weigh count_in)
            (put-put text_discrete key (update_bucket fl Attributes marshal b m) b a.buckets) in
        let one =
          weigh-put_old text_discrete count_in key (update_bucket fl Attributes marshal b m) b
            a.buckets h in
        rw h (same ∙ (omega arith))
  ]

  ingest_new-counts :
      (a : Aggregator fl Attributes marshal) (m : RawMetric fl Attributes marshal) (key : Text)
      → get text_discrete key a.buckets ≡ none
      → counted ((ingest_new fl Attributes marshal a m key).0)
        ≡ counted a + (if new_overflow a m then 2 else 1)
  unfolding ingest_new ingest_fresh fresh_bucket
  ingest_new-counts a m key h = elim (Bool-cases (over_tenant_cap fl Attributes marshal a m)) [
    | inl t ↦ rw t (ingest_overflow-counts a m (tenant_overflow_key fl Attributes marshal m))
    | inr t ↦ elim (Bool-cases (over_global_cap fl Attributes marshal a)) [
      | inl g ↦ rw (t, g) (ingest_overflow-counts a m overflow_key)
      | inr g ↦
          rw (t, g)
            (weigh-put_new text_discrete count_in key
              (fresh_bucket fl Attributes marshal a m m.name (marshal m.attributes)) a.buckets h)
    ]
  ]

  -- Every ingested point raises the count of its window by one, but by two if it opens an
  -- overflow bucket.
  pub ingest_counts :
      (a : Aggregator fl Attributes marshal) (m : RawMetric fl Attributes marshal)
      → counted ((ingest fl Attributes marshal a m).0)
        ≡ counted a + (if opens_overflow a m then 2 else 1)
  unfolding ingest opens_overflow update_bucket
  ingest_counts a m =
      let key = series_key fl Attributes marshal m in
      elim (Option-cases (get text_discrete key a.buckets)) [
        | inl h ↦ rw (h, ingest) (ingest_new-counts a m key h)
        | inr (b, h) ↦
            let one =
              weigh-put_old text_discrete count_in key (update_bucket fl Attributes marshal b m) b
                a.buckets h in
            rw (h, ingest) (omega arith)
      ]

  abbrev pub batch_points : List (MetricBucket fl Attributes marshal) → ℕ
  batch_points [] = 0
  batch_points (b ∷ bs) = b.count + batch_points bs

  -- The points in the batches that wait for the database.
  abbrev pub waiting : List (List (MetricBucket fl Attributes marshal)) → ℕ
  waiting [] = 0
  waiting (batch ∷ rest) = batch_points batch + waiting rest

  batch_points-values :
      (m : Map Text (MetricBucket fl Attributes marshal))
      → batch_points (values fl Attributes marshal m) ≡ weigh count_in m
  unfolding values weigh
  batch_points-values [] = refl
  batch_points-values ((k, b) ∷ m) = ground (arith, batch_points-values m)

  waiting-snoc :
      (c : List (List (MetricBucket fl Attributes marshal)))
      (batch : List (MetricBucket fl Attributes marshal))
      → waiting (c ++ (batch ∷ [])) ≡ waiting c + batch_points batch
  waiting-snoc [] batch = omega arith
  waiting-snoc (b ∷ c) batch = ground (arith, waiting-snoc c batch)

  abbrev has_room : Aggregator fl Attributes marshal → Bool
  has_room a = ltb (length a.flush_chan) a.flush_capacity

  -- The outcome that a flush may have.
  abbrev pub Flushed :
      Aggregator fl Attributes marshal
      → Bool
      → Aggregator fl Attributes marshal × Option (FlushError fl Attributes marshal)
      → Type 0
  Flushed a final r =
      (counted r.0 ≡ 0)
      × (((r.1 ≡ none) × (counted a + waiting a.flush_chan ≡ waiting r.0.flush_chan))
          ⊎ ((final ≡ false)
              × (has_room a ≡ false)
              × (r.1 ≡ some (dropped (size a.buckets)))
              × (r.0.flush_chan ≡ a.flush_chan)
              × (r.0.dropped_batches ≡ a.dropped_batches + 1)))

  length-values :
      (m : Map Text (MetricBucket fl Attributes marshal))
      → length (values fl Attributes marshal m) ≡ size m
  unfolding values size
  length-values [] = refl
  length-values ((k, b) ∷ m) = ground (arith, length-values m)

  size-counted :
      (m : Map Text (MetricBucket fl Attributes marshal)) → size m ≡ 0 → weigh count_in m ≡ 0
  unfolding size weigh
  size-counted [] h = refl
  size-counted ((k, b) ∷ m) h = omega arith

  send-Flushed :
      (a : Aggregator fl Attributes marshal) (final : Bool)
      → Flushed a final (
          send fl Attributes marshal
            (record a { buckets = []; series_per_tenant = [] })
            final
            (values fl Attributes marshal a.buckets))
  unfolding send weigh
  send-Flushed a final =
      let snoc = waiting-snoc a.flush_chan (values fl Attributes marshal a.buckets) in
      let points = batch_points-values a.buckets in
      elim (Bool-cases final) [
        | inl f ↦ rw f (refl, inl (refl, omega (arith, snoc, points)))
        | inr f ↦ elim (Bool-cases (has_room a)) [
          | inl r ↦ rw (f, r) (refl, inl (refl, omega (arith, snoc, points)))
          | inr r ↦
              rw (f, r)
                (
                  refl,
                  inr (
                    refl,
                    refl,
                    ap (λ n. some (dropped n)) (length-values a.buckets),
                    refl,
                    refl,
                  ),
                )
        ]
      ]

  -- A flush leaves no bucket with a point. Its points move into the channel, or, when it is not
  -- the final one and the channel is full, they are lost as one counted batch, with the number
  -- of the buckets as the error.
  pub flush_conserves :
      (a : Aggregator fl Attributes marshal) (final : Bool)
      → Flushed a final (flush fl Attributes marshal a final)
  unfolding flush
  flush_conserves a final = elim (Bool-cases (size a.buckets == 0)) [
    | inl z ↦
        let none_left = size-counted a.buckets (ground arith) in
        rw z (none_left, inl (refl, omega (arith, none_left)))
    | inr z ↦ rw z (send-Flushed a final)
  ]
