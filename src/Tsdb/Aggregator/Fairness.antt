-- ===== src/Tsdb/Aggregator/Fairness.antt =====
-- aggregator.go: how many buckets of the window one tenant can have, after any history of calls.
use otelcontext.Base.{
  ℕ, ◌+◌, ◌<◌, ◌≤◌, ◌≡◌, refl, inl, inr, Bool, none, List, [], ◌∷◌, ◌++◌, ap, subst, true, arith,
  Float64, bit, dec_bool, Text, text_discrete, Option-cases, Bool-cases, false,
}
use otelcontext.Base.Map.{Map, get, at, has}
use otelcontext.Base.Map.Laws.{get-put}
use otelcontext.Base.Map.Counters.{at-incr}
use otelcontext.Base.Map.Weigh.{weigh, weigh-put_new, weigh-put_old, put-put}
use otelcontext.Tsdb.Aggregator.{
  RawMetric, MetricBucket, Aggregator, bar, ingest, ingest_new, ingest_overflow, ingest_fresh,
  update_bucket, fresh_bucket, over_tenant_cap, over_global_cap, series_key, overflow_key,
  tenant_overflow_key, flush, send, take_batch, bucket_or_fresh, new_aggregator,
  set_cardinality_limit,
}
use otelcontext.Tsdb.Aggregator.Caps.{Call, point, tick, work, call, calls, start}

module _ (fl : Float64) (Attributes : Type 0) (marshal : Attributes → Text) (t : Text) where
  abbrev of_tenant : MetricBucket fl Attributes marshal → ℕ
  of_tenant b = bit (dec_bool (text_discrete b.tenant_id t))

  -- The buckets of the tenant in the window.
  abbrev pub buckets_of : Aggregator fl Attributes marshal → ℕ
  buckets_of a = weigh of_tenant a.buckets

  own_overflow : Text
  own_overflow = overflow_key ++ (bar ++ t)

  common_overflow : Text
  common_overflow = overflow_key

  -- The cap of a tenant is `p`, and bounds the counter of the tenant; its buckets are the counted
  -- ones, and at most its overflow bucket and the common one.
  abbrev Fair : ℕ → Aggregator fl Attributes marshal → Type 0
  Fair p a =
      (a.per_tenant_cardinality ≡ p)
      × (at text_discrete t a.series_per_tenant ≤ p)
      × (buckets_of a
          ≤ at text_discrete t a.series_per_tenant
            + bit (has text_discrete own_overflow a.buckets)
            + bit (has text_discrete common_overflow a.buckets))

  absent :
      (key j : Text) (bs : Map Text (MetricBucket fl Attributes marshal))
      → get text_discrete key bs ≡ none
      → dec_bool (text_discrete key j) ≡ true
      → has text_discrete j bs ≡ false
  absent key j bs e =
      elim (text_discrete key j) as (λ d. dec_bool d ≡ true → has text_discrete j bs ≡ false) [
        | yes q ↦ λ _. subst (λ k. has text_discrete k bs ≡ false) q (ground (arith, e))
        | no q ↦ λ z. absurd (cc)
      ]

  ingest_overflow-Fair :
      (p : ℕ) (a : Aggregator fl Attributes marshal) (m : RawMetric fl Attributes marshal)
      (key : Text)
      → bit (dec_bool (text_discrete m.tenant_id t))
        ≤ bit (dec_bool (text_discrete key own_overflow))
          + bit (dec_bool (text_discrete key common_overflow))
      → Fair p a
      → Fair p (ingest_overflow fl Attributes marshal a m key)
  unfolding ingest_overflow fresh_bucket update_bucket
  ingest_overflow-Fair p a m key opens h =
      let b = bucket_or_fresh fl Attributes marshal a m (get text_discrete key a.buckets) in
      let after = update_bucket fl Attributes marshal b m in
      let twice = put-put text_discrete key after b a.buckets in
      let own = get-put text_discrete own_overflow key after a.buckets in
      let common = get-put text_discrete common_overflow key after a.buckets in
      rw twice (elim (Option-cases (get text_discrete key a.buckets)) [
        | inl e ↦
            let grown = weigh-put_new text_discrete of_tenant key after a.buckets e in
            let new_own = absent key own_overflow a.buckets e in
            let new_common = absent key common_overflow a.buckets e in
            rw e (h.0, h.1, ground (arith, h, own, common, grown, opens, new_own, new_common))
        | inr (c, e) ↦
            let same = weigh-put_old text_discrete of_tenant key after c a.buckets e in
            rw e (h.0, h.1, ground (arith, h, own, common, same))
      ])

  ingest_fresh-Fair :
      (p : ℕ) (a : Aggregator fl Attributes marshal) (m : RawMetric fl Attributes marshal)
      (key : Text)
      → 0 < p
      → get text_discrete key a.buckets ≡ none
      → over_tenant_cap fl Attributes marshal a m ≡ false
      → Fair p a
      → Fair p (ingest_fresh fl Attributes marshal a m key)
  unfolding ingest_fresh over_tenant_cap fresh_bucket
  ingest_fresh-Fair p a m key pos missing room h =
      let fresh = fresh_bucket fl Attributes marshal a m m.name (marshal m.attributes) in
      let own = get-put text_discrete own_overflow key fresh a.buckets in
      let common = get-put text_discrete common_overflow key fresh a.buckets in
      let grown = weigh-put_new text_discrete of_tenant key fresh a.buckets missing in
      let counted = at-incr text_discrete t m.tenant_id a.series_per_tenant in
      (h.0, ground (arith, h, room, pos, counted), ground (arith, h, own, common, grown, counted))

  opens_own :
      (m : RawMetric fl Attributes marshal)
      → bit (dec_bool (text_discrete m.tenant_id t))
        ≤ bit (dec_bool (text_discrete (overflow_key ++ (bar ++ m.tenant_id)) own_overflow))
          + bit (dec_bool (text_discrete (overflow_key ++ (bar ++ m.tenant_id)) common_overflow))
  unfolding own_overflow
  opens_own m =
      let n =
        bit (dec_bool (text_discrete (overflow_key ++ (bar ++ m.tenant_id)) common_overflow)) in
      elim (text_discrete m.tenant_id t)
        as (λ d.
          bit (dec_bool d)
          ≤ bit (dec_bool (text_discrete (overflow_key ++ (bar ++ m.tenant_id)) own_overflow))
            + n) [
              | yes q ↦
                  elim (text_discrete (overflow_key ++ (bar ++ m.tenant_id)) own_overflow)
                    as (λ d. 1 ≤ bit (dec_bool d) + n) [
                      | yes r ↦ omega arith
                      | no r ↦ absurd (r (ap (λ u. overflow_key ++ (bar ++ u)) q))
                    ]
              | no q ↦ omega arith
            ]

  opens_common :
      (n : ℕ) (m : RawMetric fl Attributes marshal)
      → bit (dec_bool (text_discrete m.tenant_id t))
        ≤ n + bit (dec_bool (text_discrete overflow_key common_overflow))
  unfolding common_overflow
  opens_common n m =
      elim (text_discrete overflow_key common_overflow)
        as (λ d. bit (dec_bool (text_discrete m.tenant_id t)) ≤ n + bit (dec_bool d)) [
          | yes r ↦ elim (text_discrete m.tenant_id t) as (λ d. bit (dec_bool d) ≤ n + 1) [
            | yes q ↦ omega arith
            | no q ↦ omega arith
          ]
          | no r ↦ absurd (r refl)
        ]

  ingest_new-Fair :
      (p : ℕ) (a : Aggregator fl Attributes marshal) (m : RawMetric fl Attributes marshal)
      (key : Text)
      → 0 < p
      → get text_discrete key a.buckets ≡ none
      → Fair p a
      → Fair p ((ingest_new fl Attributes marshal a m key).0)
  unfolding ingest_new
  ingest_new-Fair p a m key pos missing h =
      elim (Bool-cases (over_tenant_cap fl Attributes marshal a m)) [
        | inl c ↦ rw c (
            ingest_overflow-Fair p a m (tenant_overflow_key fl Attributes marshal m) (opens_own m)
              h)
        | inr c ↦ elim (Bool-cases (over_global_cap fl Attributes marshal a)) [
          | inl o ↦
              rw (c, o)
                (ingest_overflow-Fair p a m overflow_key
                  (opens_common (bit (dec_bool (text_discrete overflow_key own_overflow))) m) h)
          | inr o ↦ rw (c, o) (ingest_fresh-Fair p a m key pos missing c h)
        ]
      ]

  ingest-Fair :
      (p : ℕ) (a : Aggregator fl Attributes marshal) (m : RawMetric fl Attributes marshal)
      → 0 < p
      → Fair p a
      → Fair p ((ingest fl Attributes marshal a m).0)
  unfolding ingest update_bucket
  ingest-Fair p a m pos h =
      let key = series_key fl Attributes marshal m in
      elim (Option-cases (get text_discrete key a.buckets)) [
        | inl n ↦ rw (n, ingest) (ingest_new-Fair p a m key pos n h)
        | inr (b, n) ↦
            let after = update_bucket fl Attributes marshal b m in
            let own = get-put text_discrete own_overflow key after a.buckets in
            let common = get-put text_discrete common_overflow key after a.buckets in
            let same = weigh-put_old text_discrete of_tenant key after b a.buckets n in
            rw (n, ingest) (h.0, h.1, ground (arith, h, own, common, same))
      ]

  flush-Fair :
      (p : ℕ) (a : Aggregator fl Attributes marshal) (final : Bool)
      → Fair p a
      → Fair p ((flush fl Attributes marshal a final).0)
  unfolding flush send weigh get
  flush-Fair p a final h = ground arith

  work-Fair :
      (p : ℕ) (a : Aggregator fl Attributes marshal)
      → Fair p a
      → Fair p (call fl Attributes marshal a work)
  unfolding call take_batch
  work-Fair p a h = ground arith

  calls-Fair :
      (p : ℕ) (cs : List (Call fl Attributes marshal)) (a : Aggregator fl Attributes marshal)
      → 0 < p
      → Fair p a
      → Fair p (calls fl Attributes marshal a cs)
  unfolding calls call
  calls-Fair p [] a pos h = h
  calls-Fair p (point m ∷ cs) a pos h =
      calls-Fair p cs ((ingest fl Attributes marshal a m).0) pos (ingest-Fair p a m pos h)
  calls-Fair p (tick final ∷ cs) a pos h =
      calls-Fair p cs ((flush fl Attributes marshal a final).0) pos (flush-Fair p a final h)
  calls-Fair p (work ∷ cs) a pos h =
      calls-Fair p cs (call fl Attributes marshal a work) pos (work-Fair p a h)

  bit-le : (b : Bool) → bit b ≤ 1
  bit-le true = omega arith
  bit-le false = omega arith

  -- After any history of points, flushes and persisted batches on a new aggregator whose tenant
  -- cap is set, the window holds at most the cap's buckets of one tenant, and two more: the
  -- tenant's overflow bucket and the common one.
  pub buckets_fair :
      (window g p : ℕ) (cs : List (Call fl Attributes marshal))
      → 0 < p
      → buckets_of (calls fl Attributes marshal (start fl Attributes marshal window g p) cs) ≤ p + 2
  unfolding set_cardinality_limit new_aggregator weigh get
  buckets_fair window g p cs pos =
      let a = start fl Attributes marshal window g p in
      let h : Fair p a = (refl, omega arith, omega arith) in
      let r = calls-Fair p cs a pos h in
      let z = calls fl Attributes marshal a cs in
      omega (
        arith,
        r.1,
        r.2,
        bit-le (has text_discrete own_overflow z.buckets),
        bit-le (has text_discrete common_overflow z.buckets),
      )
