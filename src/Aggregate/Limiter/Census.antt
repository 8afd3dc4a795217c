-- ===== src/Aggregate/Limiter/Census.antt =====
-- cardinality.go: the counters agree with the census of (series, window) pairs, always.
use otelcontext.Base.{
  ℕ, ◌+◌, ◌≡◌, refl, sym, ◌∙◌, ◌≢◌, Bool, true, false, none, some, arith, bit, dec_bool, Float64,
  ℕ_discrete, Option-cases, inl, inr, if◌then◌else◌,
}
use otelcontext.Base.Map.{get, put, at, incr}
use otelcontext.Base.Map.Laws.{Distinct, get-put, put-Distinct}
use otelcontext.Base.Map.Tally.{tally, tally-put_new}
use otelcontext.Base.Map.Counters.{at-incr}
use otelcontext.Aggregate.Key.{SeriesKey, key_discrete}
use otelcontext.Aggregate.Budget.{LimiterConfig}
use otelcontext.Aggregate.Limiter.{
  Limiter, SeriesWindowKey, ServiceScope, scope, scope_discrete, window_key_discrete, window_key,
  mark, charge, reserve, add, new_limiter,
}
use otelcontext.Aggregate.Limiter.Charged.{charged, charged_again, charged_enter, charged_reserve}

-- The tests by which the counters split the census.
abbrev pub of_any : SeriesKey → Bool
of_any k = true

abbrev pub of_signal : ℕ → SeriesKey → Bool
of_signal s k = dec_bool (ℕ_discrete k.signal s)

abbrev pub of_tenant : ℕ → SeriesKey → Bool
of_tenant t k = dec_bool (ℕ_discrete k.tenant_id t)

abbrev pub of_scope : ServiceScope → SeriesKey → Bool
of_scope c k =
    dec_bool (
      scope_discrete (record { tenant = k.tenant_id; service = k.service_id; signal = k.signal }) c)

abbrev pub of_key : SeriesKey → SeriesWindowKey → Unit {0} → Bool
of_key k w u = dec_bool (key_discrete w.key k)

module _ (fl : Float64) where
  abbrev pub charged_by : Limiter fl → (SeriesKey → Bool) → ℕ
  charged_by l p = charged l.windows l.overflow p

  pub record Census (l : Limiter fl) : Type 0 where
    pub present_distinct : Distinct window_key_discrete l.present
    pub windows_distinct : Distinct key_discrete l.windows
    pub held : (k : SeriesKey) → at key_discrete k l.windows ≡ tally (of_key k) l.present
    pub positive : (k : SeriesKey) → get key_discrete k l.windows ≢ some 0
    pub active :
        (k : SeriesKey) → get key_discrete k l.windows ≡ none → get key_discrete k l.overflow ≡ none
    pub total : l.total ≡ charged_by l of_any
    pub by_signal : (s : ℕ) → at ℕ_discrete s l.by_signal ≡ charged_by l (of_signal s)
    pub by_service :
        (c : ServiceScope) → at scope_discrete c l.by_service ≡ charged_by l (of_scope c)
    pub by_tenant : (t : ℕ) → at ℕ_discrete t l.by_tenant ≡ charged_by l (of_tenant t)

  pub new_limiter-Census : (c : LimiterConfig fl) → Census (new_limiter fl c)
  unfolding new_limiter charged tally get
  new_limiter-Census c = record {
    present_distinct = tt;
    windows_distinct = tt;
    held = λ k. refl;
    positive = λ k e. cc;
    active = λ k e. refl;
    total = refl;
    by_signal = λ s. refl;
    by_service = λ s. refl;
    by_tenant = λ s. refl;
  }

  module _ (l : Limiter fl) (key : SeriesKey) (window : ℕ) (c : Census l)
      (absent : get window_key_discrete (window_key fl key window) l.present ≡ none) where
    mark-held :
        (k : SeriesKey)
        → at key_discrete k (mark fl l key window).windows
          ≡ tally (of_key k) (mark fl l key window).present
    unfolding mark
    mark-held k = ground (
      arith,
      at-incr key_discrete k key l.windows,
      tally-put_new window_key_discrete (of_key k) (window_key fl key window) tt l.present absent,
      c.held k,
    )

    mark-positive : (k : SeriesKey) → get key_discrete k (mark fl l key window).windows ≢ some 0
    unfolding mark incr
    mark-positive k = ground (
      arith,
      get-put key_discrete k key (at key_discrete key l.windows + 1) l.windows,
      c.positive k,
    )

    mark-active :
        (k : SeriesKey)
        → get key_discrete k (mark fl l key window).windows ≡ none
        → get key_discrete k l.overflow ≡ none
    unfolding mark incr
    mark-active k h = ground (
      arith,
      get-put key_discrete k key (at key_discrete key l.windows + 1) l.windows,
      c.active k,
    )

    mark_again-Census :
        (n : ℕ) → get key_discrete key l.windows ≡ some n → Census (mark fl l key window)
    unfolding mark incr
    mark_again-Census n h = record {
      present_distinct = put-Distinct window_key_discrete _ tt l.present c.present_distinct;
      windows_distinct = put-Distinct key_discrete key _ l.windows c.windows_distinct;
      held = mark-held;
      positive = mark-positive;
      active = mark-active;
      total = c.total ∙ sym (charged_again l.windows l.overflow of_any key _ n h);
      by_signal =
          λ s. c.by_signal s ∙ sym (charged_again l.windows l.overflow (of_signal s) key _ n h);
      by_service =
          λ s. c.by_service s ∙ sym (charged_again l.windows l.overflow (of_scope s) key _ n h);
      by_tenant =
          λ s. c.by_tenant s ∙ sym (charged_again l.windows l.overflow (of_tenant s) key _ n h);
    }

    charge-Census :
        get key_discrete key l.windows ≡ none → Census (charge fl (mark fl l key window) key)
    unfolding charge mark incr
    charge-Census h = record {
      present_distinct = put-Distinct window_key_discrete _ tt l.present c.present_distinct;
      windows_distinct = put-Distinct key_discrete key _ l.windows c.windows_distinct;
      held = mark-held;
      positive = mark-positive;
      active = mark-active;
      total = ground (arith, c.total, entered of_any);
      by_signal = λ s. ground (
        arith,
        c.by_signal s,
        entered (of_signal s),
        at-incr ℕ_discrete s key.signal l.by_signal,
      );
      by_service = λ s. ground (
        arith,
        c.by_service s,
        entered (of_scope s),
        at-incr scope_discrete s (scope fl key) l.by_service,
      );
      by_tenant = λ s. ground (
        arith,
        c.by_tenant s,
        entered (of_tenant s),
        at-incr ℕ_discrete s key.tenant_id l.by_tenant,
      );
    }
      where
        entered :
            (p : SeriesKey → Bool)
            → charged
                (put key_discrete key (at key_discrete key l.windows + 1) l.windows)
                l.overflow
                p
              ≡ charged l.windows l.overflow p + bit (p key)
        entered p = charged_enter l.windows l.overflow p key _ h (c.active key h)

    reserve-Census :
        get key_discrete key l.windows ≡ none → Census (reserve fl (mark fl l key window) key)
    unfolding reserve mark incr
    reserve-Census h = record {
      present_distinct = put-Distinct window_key_discrete _ tt l.present c.present_distinct;
      windows_distinct = put-Distinct key_discrete key _ l.windows c.windows_distinct;
      held = mark-held;
      positive = mark-positive;
      active = λ k e. ground (
        arith,
        mark-active k,
        get-put key_discrete k key tt l.overflow,
        get-put key_discrete k key (at key_discrete key l.windows + 1) l.windows,
      );
      total = c.total ∙ sym (kept of_any);
      by_signal = λ s. c.by_signal s ∙ sym (kept (of_signal s));
      by_service = λ s. c.by_service s ∙ sym (kept (of_scope s));
      by_tenant = λ s. c.by_tenant s ∙ sym (kept (of_tenant s));
    }
      where
        kept :
            (p : SeriesKey → Bool)
            → charged
                (put key_discrete key (at key_discrete key l.windows + 1) l.windows)
                (put key_discrete key tt l.overflow)
                p
              ≡ charged l.windows l.overflow p
        kept p = charged_reserve l.windows l.overflow p key _ h

    add_again :
        (is_overflow : Bool) (n : ℕ)
        → get key_discrete key l.windows ≡ some n
        → add fl l key window is_overflow ≡ mark fl l key window
    unfolding add mark
    add_again is_overflow n h =
        ground (arith, at-incr key_discrete key key l.windows, c.positive key)

    add_first :
        (is_overflow : Bool)
        → get key_discrete key l.windows ≡ none
        → add fl l key window is_overflow ≡ (
            if is_overflow
            then reserve fl (mark fl l key window) key
            else charge fl (mark fl l key window) key)
    unfolding add mark
    add_first is_overflow h = ground (arith, at-incr key_discrete key key l.windows)

    entered-Census :
        (is_overflow : Bool)
        → get key_discrete key l.windows ≡ none
        → Census (
            if is_overflow
            then reserve fl (mark fl l key window) key
            else charge fl (mark fl l key window) key)
    entered-Census true h = reserve-Census h
    entered-Census false h = charge-Census h

    -- `addLocked` keeps the census, for a pair that is not yet present.
    pub add-Census : (is_overflow : Bool) → Census (add fl l key window is_overflow)
    add-Census is_overflow = elim (Option-cases (get key_discrete key l.windows)) [
      | inl h ↦ rw (add_first is_overflow h) (entered-Census is_overflow h)
      | inr (n, h) ↦ rw (add_again is_overflow n h) (mark_again-Census n h)
    ]
