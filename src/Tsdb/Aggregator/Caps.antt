-- ===== src/Tsdb/Aggregator/Caps.antt =====
-- aggregator.go: the caps on series hold in every window, after any history of calls.
use otelcontext.Base.{
  ℕ, ◌<◌, ◌≤◌, ◌≡◌, refl, inl, inr, Bool, false, Option, none, some, List, [], ◌∷◌, arith, Float64,
  Text, text_discrete, Option-cases, Bool-cases,
}
use otelcontext.Base.Map.{get, put, size}
use otelcontext.Base.Map.Weigh.{weigh, weigh-incr, size-put_new, le-size-put}
use otelcontext.Tsdb.Aggregator.{
  RawMetric, MetricBucket, Aggregator, ingest, ingest_new, ingest_overflow, ingest_fresh,
  update_bucket, fresh_bucket, over_tenant_cap, over_global_cap, series_key, overflow_key,
  tenant_overflow_key, flush, send, take_batch, bucket_or_fresh, new_aggregator,
  set_cardinality_limit,
}

module _ (fl : Float64) (Attributes : Type 0) (marshal : Attributes → Text) where
  -- The calls on an aggregator whose caps are set.
  pub data Call : Type 0 where
    point : RawMetric fl Attributes marshal → Call
    tick : Bool → Call
    work : Call

  abbrev or_same :
      Aggregator fl Attributes marshal
      → Option (Aggregator fl Attributes marshal × List (MetricBucket fl Attributes marshal))
      → Aggregator fl Attributes marshal
  or_same a none = a
  or_same a (some r) = r.0

  unfoldable pub call : Aggregator fl Attributes marshal → Call → Aggregator fl Attributes marshal
  call a (point m) = (ingest fl Attributes marshal a m).0
  call a (tick final) = (flush fl Attributes marshal a final).0
  call a work = or_same a (take_batch fl Attributes marshal a)

  unfoldable pub calls :
      Aggregator fl Attributes marshal → List Call → Aggregator fl Attributes marshal
  calls a [] = a
  calls a (c ∷ cs) = calls (call a c) cs

  -- The series that the counters of the tenants hold.
  abbrev pub admitted : Aggregator fl Attributes marshal → ℕ
  admitted a = weigh (λ n. n) a.series_per_tenant

  -- The global cap is `g`, and bounds the admitted series, each of which has its bucket.
  Within : ℕ → Aggregator fl Attributes marshal → Type 0
  Within g a = (a.max_cardinality ≡ g) × (admitted a ≤ size a.buckets) × (admitted a ≤ g)

  ingest_overflow-Within :
      (g : ℕ) (a : Aggregator fl Attributes marshal) (m : RawMetric fl Attributes marshal)
      (key : Text)
      → Within g a
      → Within g (ingest_overflow fl Attributes marshal a m key)
  unfolding Within ingest_overflow
  ingest_overflow-Within g a m key h =
      let b = bucket_or_fresh fl Attributes marshal a m (get text_discrete key a.buckets) in
      ground (
        arith,
        le-size-put text_discrete key b a.buckets,
        le-size-put text_discrete key (update_bucket fl Attributes marshal b m)
            (put text_discrete key b a.buckets),
      )

  ingest_fresh-Within :
      (g : ℕ) (a : Aggregator fl Attributes marshal) (m : RawMetric fl Attributes marshal)
      (key : Text)
      → 0 < g
      → get text_discrete key a.buckets ≡ none
      → over_global_cap fl Attributes marshal a ≡ false
      → Within g a
      → Within g (ingest_fresh fl Attributes marshal a m key)
  unfolding Within ingest_fresh over_global_cap
  ingest_fresh-Within g a m key pos missing o h = ground (
    arith,
    weigh-incr text_discrete m.tenant_id a.series_per_tenant,
    size-put_new text_discrete key
        (fresh_bucket fl Attributes marshal a m m.name (marshal m.attributes)) a.buckets missing,
  )

  ingest_new-Within :
      (g : ℕ) (a : Aggregator fl Attributes marshal) (m : RawMetric fl Attributes marshal)
      (key : Text)
      → 0 < g
      → get text_discrete key a.buckets ≡ none
      → Within g a
      → Within g ((ingest_new fl Attributes marshal a m key).0)
  unfolding ingest_new
  ingest_new-Within g a m key pos missing h =
      elim (Bool-cases (over_tenant_cap fl Attributes marshal a m)) [
        | inl t ↦
            rw t (ingest_overflow-Within g a m (tenant_overflow_key fl Attributes marshal m) h)
        | inr t ↦ elim (Bool-cases (over_global_cap fl Attributes marshal a)) [
          | inl o ↦ rw (t, o) (ingest_overflow-Within g a m overflow_key h)
          | inr o ↦ rw (t, o) (ingest_fresh-Within g a m key pos missing o h)
        ]
      ]

  ingest-Within :
      (g : ℕ) (a : Aggregator fl Attributes marshal) (m : RawMetric fl Attributes marshal)
      → 0 < g
      → Within g a
      → Within g ((ingest fl Attributes marshal a m).0)
  unfolding ingest Within
  ingest-Within g a m pos h =
      let key = series_key fl Attributes marshal m in
      elim (Option-cases (get text_discrete key a.buckets)) [
        | inl n ↦ rw (n, ingest) (ingest_new-Within g a m key pos n h)
        | inr (b, n) ↦
            rw (n, ingest)
              (ground (
                arith,
                le-size-put text_discrete key (update_bucket fl Attributes marshal b m) a.buckets,
              ))
      ]

  flush-Within :
      (g : ℕ) (a : Aggregator fl Attributes marshal) (final : Bool)
      → Within g a
      → Within g ((flush fl Attributes marshal a final).0)
  unfolding flush send Within weigh size
  flush-Within g a final h = ground arith

  work-Within : (g : ℕ) (a : Aggregator fl Attributes marshal) → Within g a → Within g (call a work)
  unfolding call take_batch Within
  work-Within g a h = ground arith

  calls-Within :
      (g : ℕ) (cs : List Call) (a : Aggregator fl Attributes marshal)
      → 0 < g
      → Within g a
      → Within g (calls a cs)
  unfolding calls call
  calls-Within g [] a pos h = h
  calls-Within g (point m ∷ cs) a pos h =
      calls-Within g cs ((ingest fl Attributes marshal a m).0) pos (ingest-Within g a m pos h)
  calls-Within g (tick final ∷ cs) a pos h =
      calls-Within g cs ((flush fl Attributes marshal a final).0) pos (flush-Within g a final h)
  calls-Within g (work ∷ cs) a pos h = calls-Within g cs (call a work) pos (work-Within g a h)

  -- The start: a new aggregator whose caps are set.
  abbrev pub start : ℕ → ℕ → ℕ → Aggregator fl Attributes marshal
  start window g p =
      set_cardinality_limit fl Attributes marshal (new_aggregator fl Attributes marshal window) g p

  -- After any history of points, flushes and persisted batches, a global cap that is set bounds
  -- the series that the window has admitted for all tenants together.
  pub calls_within :
      (window g p : ℕ) (cs : List Call) → 0 < g → admitted (calls (start window g p) cs) ≤ g
  unfolding Within set_cardinality_limit new_aggregator weigh size
  calls_within window g p cs pos =
      let h : Within g (start window g p) = (refl, omega arith, omega arith) in
      (calls-Within g cs (start window g p) pos h).2
