-- ===== src/Tsdb/Ring/Series.antt =====
-- ringbuffer.go: the rings stay sound, and the cap on series holds, after any history of points.
use otelcontext.Base.{
  ℕ, zero, suc, ◌≤◌, ◌<◌, ◌≡◌, refl, subst, ◌∙◌, inl, inr, Bool, true, false, Option, none, some,
  List, [], ◌∷◌, arith, Float64, Text, text_discrete, length, replicate, length-set,
  get_elem?-set_self, Bool-cases, Option-cases,
}
use otelcontext.Base.Map.{Map, size, get, put}
use otelcontext.Base.Map.Weigh.{size-put_new, size-put_old}
use otelcontext.Tsdb.Aggregator.{truncate}
use otelcontext.Tsdb.Ring.{
  MetricRing, RingBuffer, new_metric_ring, new_ring_buffer, record_point, store_ring, rejects,
  ring_key, new_empty_agg,
}
use otelcontext.Tsdb.Ring.Advance.{Sound, record_ring-Sound}

module _ (fl : Float64) where
  open fl use {F}

  length-replicate : {A : Type 0} (n : ℕ) (a : A) → length (replicate n a) ≡ n
  length-replicate zero a = refl
  length-replicate (suc n) a = omega (arith, length-replicate n a)

  new_metric_ring-Sound :
      (metric service : Text) (slots window_dur now : ℕ)
      → 0 < slots
      → 0 < window_dur
      → Sound fl (new_metric_ring fl metric service slots window_dur now)
  unfolding Sound new_metric_ring
  new_metric_ring-Sound metric service slots window_dur now pos dur =
      let empty = new_empty_agg fl metric service in
      let start = truncate now window_dur in
      let first = record empty { window_start = start } in
      let len = length-replicate slots empty in
      let inside : 0 < length (replicate slots empty) = omega (arith, pos, len) in
      (
        pos,
        dur,
        length-set (replicate slots empty) 0 first ∙ len,
        pos,
        (first, get_elem?-set_self (replicate slots empty) 0 first inside, refl),
      )

  -- Every ring of a map is sound.
  abbrev AllSound : Map Text (MetricRing fl) → Type 0
  AllSound [] = Unit {0}
  AllSound ((key, r) ∷ m) = Sound fl r × AllSound m

  put-AllSound :
      (key : Text) (r : MetricRing fl) (m : Map Text (MetricRing fl))
      → Sound fl r
      → AllSound m
      → AllSound (put text_discrete key r m)
  unfolding put
  put-AllSound key r [] s h = (s, tt)
  put-AllSound key r ((j, w) ∷ m) s h = ground (arith, s, put-AllSound key r m s h.1)

  get-Sound :
      (key : Text) (r : MetricRing fl) (m : Map Text (MetricRing fl))
      → AllSound m
      → get text_discrete key m ≡ some r
      → Sound fl r
  unfolding get
  get-Sound key r [] h g = absurd (cc)
  get-Sound key r ((j, w) ∷ m) h g = elim (text_discrete j key) [
    | yes e ↦ let same : w ≡ r = grind (arith, e, g) in subst (λ x. Sound fl x) same h.0
    | no n ↦
        let rest : get text_discrete key m ≡ some r = grind (arith, n, g) in
        get-Sound key r m h.1 rest
  ]

  -- A buffer with room for one window per ring and a cap that holds; the cap is set.
  pub Kept : ℕ → RingBuffer fl → Type 0
  Kept n rb =
      (0 < rb.slots)
      × (0 < rb.window_dur)
      × (rb.max_series ≡ n)
      × (size rb.rings ≤ n)
      × AllSound rb.rings

  -- A point never panics, and the rings stay sound and within the cap.
  pub record_point-Kept :
      (n : ℕ) (rb : RingBuffer fl) (tenant metric service : Text) (value : F) (time now : ℕ)
      → 0 < n
      → Kept n rb
      → (r : RingBuffer fl × Bool) × (record_point fl rb tenant metric service value time now
          ≡ some r)
        × Kept n r.0
  unfolding record_point Kept store_ring rejects
  record_point-Kept n rb tenant metric service value time now pos (ps, dur, same, below, all) =
      let key = ring_key tenant metric service in
      let fresh = new_metric_ring fl metric service rb.slots rb.window_dur now in
      elim (Option-cases (get text_discrete key rb.rings)) [
        | inl g ↦ elim (Bool-cases (rejects fl rb)) [
          | inl f ↦ ((rb, false), rw (g, record_point, f) refl, (ps, dur, same, below, all))
          | inr f ↦
              let (after, done, sound) =
                record_ring-Sound fl fresh value time
                  (new_metric_ring-Sound metric service rb.slots rb.window_dur now ps dur) in
              let grown = size-put_new text_discrete key after rb.rings g in
              let fits : size (put text_discrete key after rb.rings) ≤ n =
                ground (arith, grown, f, same, pos) in
              (
                (record rb { rings = put text_discrete key after rb.rings }, true),
                rw (g, record_point, f, done) refl,
                (ps, dur, same, fits, put-AllSound key after rb.rings sound all),
              )
        ]
        | inr (r, g) ↦
            let (after, done, sound) =
              record_ring-Sound fl r value time (get-Sound key r rb.rings all g) in
            let grown = size-put_old text_discrete key after r rb.rings g in
            (
              (record rb { rings = put text_discrete key after rb.rings }, true),
              rw (g, record_point, done) refl,
              (
                ps,
                dur,
                same,
                omega (arith, grown, below),
                put-AllSound key after rb.rings sound all,
              ),
            )
      ]

  -- One call of `Record`.
  pub record Point : Type 0 where
    pub tenant : Text
    pub metric : Text
    pub service : Text
    pub value : F
    pub time : ℕ
    pub now : ℕ

  pub record_all : RingBuffer fl → List Point → Option (RingBuffer fl)
  record_all rb [] = some rb
  record_all rb (p ∷ ps) =
      elim (record_point fl rb p.tenant p.metric p.service p.value p.time p.now) [
        | none ↦ none
        | some r ↦ record_all r.0 ps
      ]

  record_all-Kept :
      (n : ℕ) (rb : RingBuffer fl) (ps : List Point)
      → 0 < n
      → Kept n rb
      → (after : RingBuffer fl) × (record_all rb ps ≡ some after) × Kept n after
  unfolding record_all
  record_all-Kept n rb [] pos h = (rb, refl, h)
  record_all-Kept n rb (p ∷ ps) pos h =
      let (r, one, kept) =
        record_point-Kept n rb p.tenant p.metric p.service p.value p.time p.now pos h in
      let (after, all, done) = record_all-Kept n (r.0) ps pos kept in
      (after, rw (one, record_all) all, done)

  -- With at least one window per ring, of some length, and a cap on the series, no sequence of
  -- points panics, and the buffer never holds more rings than the cap.
  pub record_all_capped :
      (slots window_dur n : ℕ) (ps : List Point)
      → 0 < slots
      → 0 < window_dur
      → 0 < n
      → (after : RingBuffer fl) × (record_all (new_ring_buffer fl slots window_dur n) ps
          ≡ some after)
        × (size after.rings ≤ n)
  unfolding Kept new_ring_buffer size
  record_all_capped slots window_dur n ps pos dur some_cap =
      let start : Kept n (new_ring_buffer fl slots window_dur n) =
        (pos, dur, refl, omega arith, tt) in
      let (after, all, kept) =
        record_all-Kept n (new_ring_buffer fl slots window_dur n) ps some_cap start in
      (after, all, kept.3)
