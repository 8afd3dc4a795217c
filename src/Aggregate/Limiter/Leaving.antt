-- ===== src/Aggregate/Limiter/Leaving.antt =====
-- cardinality.go: the census when a series leaves a window.
use otelcontext.Base.{
  ℕ, ◌+◌, ◌-◌, ◌<◌, ◌≡◌, sym, ◌∙◌, Bool, none, some, arith, bit, dec_bool, Float64, ℕ_discrete,
  dec_lt, Option-cases, inl, inr,
}
use otelcontext.Base.Map.{get, delete, at, decr}
use otelcontext.Base.Map.Laws.{get-put, get-delete, put-Distinct, delete-Distinct, delete-put}
use otelcontext.Base.Map.Tally.{tally, tally-delete}
use otelcontext.Base.Map.Counters.{at-decr, at-drop_empty}
use otelcontext.Aggregate.Key.{SeriesKey, key_discrete}
use otelcontext.Aggregate.Limiter.{
  Limiter, scope, scope_discrete, window_key_discrete, window_key, is_present, unmark, retire,
  discharge, unreserve, release,
}
use otelcontext.Aggregate.Limiter.Charged.{charged, charged_again, charged_leave, charged_unreserve}
use otelcontext.Aggregate.Limiter.Census.{Census, of_any, of_signal, of_tenant, of_scope, of_key}

module _ (fl : Float64) (l : Limiter fl) (key : SeriesKey) (window : ℕ) (c : Census fl l)
    (u : Unit {0})
    (there : get window_key_discrete (window_key fl key window) l.present ≡ some u) where
  -- A pair that is present is counted.
  held_pos : 0 < at key_discrete key l.windows
  held_pos = ground (
    arith,
    c.held key,
    tally-delete window_key_discrete (of_key key) (window_key fl key window) u l.present
        c.present_distinct there,
  )

  gone :
      (k : SeriesKey)
      → tally (of_key k) (unmark fl l key window).present + bit (dec_bool (key_discrete key k))
        ≡ tally (of_key k) l.present
  unfolding unmark
  gone k =
      tally-delete window_key_discrete (of_key k) (window_key fl key window) u l.present
        c.present_distinct there

  unmark-Census :
      (n : ℕ) → get key_discrete key l.windows ≡ some n → 1 < n → Census fl (unmark fl l key window)
  unfolding unmark decr
  unmark-Census n h more = record {
    present_distinct = delete-Distinct window_key_discrete _ l.present c.present_distinct;
    windows_distinct = put-Distinct key_discrete key _ l.windows c.windows_distinct;
    held = λ k. ground (arith, gone k, c.held k, at-decr key_discrete k key l.windows);
    positive = λ k. ground (
      arith,
      get-put key_discrete k key (at key_discrete key l.windows - 1) l.windows,
      c.positive k,
    );
    active = λ k e. ground (
      arith,
      get-put key_discrete k key (at key_discrete key l.windows - 1) l.windows,
      c.active k,
    );
    total = c.total ∙ sym (charged_again l.windows l.overflow of_any key _ n h);
    by_signal =
        λ s. c.by_signal s ∙ sym (charged_again l.windows l.overflow (of_signal s) key _ n h);
    by_service =
        λ s. c.by_service s ∙ sym (charged_again l.windows l.overflow (of_scope s) key _ n h);
    by_tenant =
        λ s. c.by_tenant s ∙ sym (charged_again l.windows l.overflow (of_tenant s) key _ n h);
  }

  module _ (h : get key_discrete key l.windows ≡ some 1) where
    last-held :
        (k : SeriesKey)
        → at key_discrete k (delete key_discrete key l.windows)
          ≡ tally (of_key k) (unmark fl l key window).present
    last-held k = ground (arith, gone k, c.held k, get-delete key_discrete k key l.windows)

    -- The series' occupancy goes back to the budget.
    discharge-Census :
        get key_discrete key l.overflow ≡ none
        → Census fl (
            discharge fl
              (record (unmark fl l key window) { windows = delete key_discrete key l.windows })
              key)
    unfolding unmark discharge
    discharge-Census e = record {
      present_distinct = delete-Distinct window_key_discrete _ l.present c.present_distinct;
      windows_distinct = delete-Distinct key_discrete key l.windows c.windows_distinct;
      held = last-held;
      positive = λ k. ground (arith, get-delete key_discrete k key l.windows, c.positive k);
      active = λ k i. ground (arith, get-delete key_discrete k key l.windows, c.active k);
      total = ground (arith, c.total, left of_any);
      by_signal = λ s.
          ground
            (arith, c.by_signal s, left (of_signal s), at-decr ℕ_discrete s key.signal l.by_signal);
      by_service = λ s. ground (
        arith,
        c.by_service s,
        left (of_scope s),
        at-drop_empty scope_discrete s (scope fl key)
            (decr scope_discrete (scope fl key) l.by_service),
        at-decr scope_discrete s (scope fl key) l.by_service,
      );
      by_tenant = λ s. ground (
        arith,
        c.by_tenant s,
        left (of_tenant s),
        at-drop_empty ℕ_discrete s key.tenant_id (decr ℕ_discrete key.tenant_id l.by_tenant),
        at-decr ℕ_discrete s key.tenant_id l.by_tenant,
      );
    }
      where
        left :
            (p : SeriesKey → Bool)
            → charged (delete key_discrete key l.windows) l.overflow p + bit (p key)
              ≡ charged l.windows l.overflow p
        left p = charged_leave l.windows l.overflow p key 1 c.windows_distinct h e

    unreserve-Census :
        (v : Unit {0})
        → get key_discrete key l.overflow ≡ some v
        → Census fl (
            unreserve fl
              (record (unmark fl l key window) { windows = delete key_discrete key l.windows })
              key)
    unfolding unmark unreserve
    unreserve-Census v e = record {
      present_distinct = delete-Distinct window_key_discrete _ l.present c.present_distinct;
      windows_distinct = delete-Distinct key_discrete key l.windows c.windows_distinct;
      held = last-held;
      positive = λ k. ground (arith, get-delete key_discrete k key l.windows, c.positive k);
      active = λ k i. ground (
        arith,
        get-delete key_discrete k key l.windows,
        get-delete key_discrete k key l.overflow,
        c.active k,
      );
      total = c.total ∙ sym (kept of_any);
      by_signal = λ s. c.by_signal s ∙ sym (kept (of_signal s));
      by_service = λ s. c.by_service s ∙ sym (kept (of_scope s));
      by_tenant = λ s. c.by_tenant s ∙ sym (kept (of_tenant s));
    }
      where
        kept :
            (p : SeriesKey → Bool)
            → charged (delete key_discrete key l.windows) (delete key_discrete key l.overflow) p
              ≡ charged l.windows l.overflow p
        kept p = charged_unreserve l.windows l.overflow p key 1 v c.windows_distinct h e

    retire-Census : Census fl (retire fl (unmark fl l key window) key)
    unfolding retire unmark decr
    retire-Census = elim (Option-cases (get key_discrete key l.overflow)) [
      | inl e ↦ rw (e, delete-put key_discrete key _ l.windows) (discharge-Census e)
      | inr (v, e) ↦ rw (e, delete-put key_discrete key _ l.windows) (unreserve-Census v e)
    ]

  release_again :
      (n : ℕ)
      → get key_discrete key l.windows ≡ some n
      → 1 < n
      → release fl l key window ≡ unmark fl l key window
  unfolding release unmark is_present
  release_again n h more = ground (arith, there, at-decr key_discrete key key l.windows)

  release_last :
      get key_discrete key l.windows ≡ some 1
      → release fl l key window ≡ retire fl (unmark fl l key window) key
  unfolding release unmark is_present
  release_last h = ground (arith, there, at-decr key_discrete key key l.windows)

  last_window : (n : ℕ) → get key_discrete key l.windows ≡ some n → ¬ (1 < n) → n ≡ 1
  last_window n h less = ground (arith, held_pos)

  released-Census : Census fl (release fl l key window)
  released-Census = elim (Option-cases (get key_discrete key l.windows)) [
    | inl h ↦ absurd (ground (arith, held_pos))
    | inr (n, h) ↦ elim (dec_lt 1 n) [
      | yes more ↦ rw (release_again n h more) (unmark-Census n h more)
      | no less ↦
          let one = rw (last_window n h less) at h in rw (release_last one) (retire-Census one)
    ]
  ]

release_absent :
    (fl : Float64) (l : Limiter fl) (key : SeriesKey) (window : ℕ)
    → get window_key_discrete (window_key fl key window) l.present ≡ none
    → release fl l key window ≡ l
unfolding release is_present
release_absent fl l key window h = ground arith

-- `Release` keeps the census, whether or not the pair is present.
pub release-Census :
    (fl : Float64) (l : Limiter fl) (key : SeriesKey) (window : ℕ)
    → Census fl l
    → Census fl (release fl l key window)
release-Census fl l key window c =
    elim (Option-cases (get window_key_discrete (window_key fl key window) l.present)) [
      | inl h ↦ rw (release_absent fl l key window h) c
      | inr (u, h) ↦ released-Census fl l key window c u h
    ]
