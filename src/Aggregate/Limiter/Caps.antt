-- ===== src/Aggregate/Limiter/Caps.antt =====
-- cardinality.go: no counter that a cap is compared against passes that cap.
use otelcontext.Base.{
  ℕ, ◌+◌, ◌<◌, ◌≤◌, ◌≡◌, sym, subst, inl, inr, true, false, ◌&&◌, none, arith, Float64, Bool-cases,
  ltb, if◌then◌else◌, ℤ, pos, negsuc, pos_part, is_pos, at_limit, ℕ_discrete, ltb_ℤ,
}
use otelcontext.Base.Map.{Map, has, at, delete, incr, decr}
use otelcontext.Base.Map.Counters.{at-incr, at-decr, at-drop_empty}
use otelcontext.Aggregate.Key.{SeriesKey, key_discrete}
use otelcontext.Aggregate.Budget.{LimiterConfig, signal_cap, series_cap, tenant_limit, overflow_key}
use otelcontext.Aggregate.Limiter.{
  Limiter, ServiceScope, scope, scope_discrete, mark, charge, reserve, add, is_present,
  admit_overflow, count_overflow, route_overflow, admit, check, release, unmark, retire, discharge,
  unreserve, tenant_full, series_full, signal_is_full, global_full,
}
use otelcontext.Aggregate.Limiter.Admitting.{admit_cases}

below_limit : (n : ℕ) (c : ℤ) → is_pos c ≡ true → at_limit n c ≡ false → n + 1 ≤ pos_part c
below_limit n (pos k) h e = ground arith
below_limit n (negsuc k) h e = absurd (cc)

raised_pos : (z : ℤ) → is_pos (if ltb_ℤ z (pos 1) then pos 1 else z) ≡ true
raised_pos (pos n) = ground arith
raised_pos (negsuc n) = ground arith

guarded :
    (n : ℕ) (c : ℤ) → is_pos c ≡ true → (is_pos c && at_limit n c) ≡ false → n + 1 ≤ pos_part c
guarded n c h e = ground (arith, below_limit n c)

module _ (fl : Float64) where
  -- The caps of a configuration, as bounds on the counters that they are compared against.
  pub record Bounds (cfg : LimiterConfig fl) (total : ℕ) (by_signal : Map ℕ ℕ)
      (by_service : Map ServiceScope ℕ) (by_tenant : Map ℕ ℕ) : Type 0 where
    pub in_total : is_pos cfg.max_series ≡ true → total ≤ pos_part cfg.max_series
    pub in_signal :
        (s : ℕ)
        → is_pos (signal_cap fl cfg s) ≡ true
        → at ℕ_discrete s by_signal ≤ pos_part (signal_cap fl cfg s)
    pub in_service :
        (c : ServiceScope)
        → is_pos (series_cap fl cfg c.signal) ≡ true
        → at scope_discrete c by_service ≤ pos_part (series_cap fl cfg c.signal)
    pub in_tenant :
        (t : ℕ)
        → fl.ltb_f fl.zero_f cfg.series_per_tenant_fraction ≡ true
        → at ℕ_discrete t by_tenant ≤ pos_part (tenant_limit fl cfg)

  abbrev pub Within : Limiter fl → Type 0
  Within l = Bounds l.cfg l.total l.by_signal l.by_service l.by_tenant

  tenant_limit_pos : (c : LimiterConfig fl) → is_pos (tenant_limit fl c) ≡ true
  unfolding tenant_limit
  tenant_limit_pos c =
      raised_pos (fl.to_int (fl.mul_f c.series_per_tenant_fraction (fl.of_int c.max_series)))

  -- What `checkLocked` has found when it finds nothing.
  record Room (l : Limiter fl) (key : SeriesKey) : Type 0 where
    tenant : tenant_full fl l key ≡ false
    series : series_full fl l key ≡ false
    signal : signal_is_full fl l key ≡ false
    global : global_full fl l ≡ false

  check-Room : (l : Limiter fl) (key : SeriesKey) → check fl l key ≡ none → Room l key
  unfolding check
  check-Room l key h = ground arith

  module _ (l : Limiter fl) (key : SeriesKey) (w : Within l) (r : Room l key) where
    charge-total : is_pos l.cfg.max_series ≡ true → l.total + 1 ≤ pos_part l.cfg.max_series
    unfolding global_full
    charge-total h = ground (arith, guarded l.total l.cfg.max_series h r.global)

    charge-signal :
        (s : ℕ)
        → is_pos (signal_cap fl l.cfg s) ≡ true
        → at ℕ_discrete s (charge fl l key).by_signal ≤ pos_part (signal_cap fl l.cfg s)
    unfolding charge signal_is_full
    charge-signal s h = elim (ℕ_discrete key.signal s) [
      | yes e ↦ rw (← e) (
          ground (
            arith,
            at-incr ℕ_discrete key.signal key.signal l.by_signal,
            guarded (at ℕ_discrete key.signal l.by_signal) (signal_cap fl l.cfg key.signal) (rw e h)
                r.signal,
          ))
      | no ne ↦ ground (arith, at-incr ℕ_discrete s key.signal l.by_signal, w.in_signal s h)
    ]

    charge-service :
        (c : ServiceScope)
        → is_pos (series_cap fl l.cfg c.signal) ≡ true
        → at scope_discrete c (charge fl l key).by_service ≤ pos_part (series_cap fl l.cfg c.signal)
    unfolding charge series_full
    charge-service c h = elim (scope_discrete (scope fl key) c) [
      | yes e ↦ rw (← e) (
          ground (
            arith,
            at-incr scope_discrete (scope fl key) (scope fl key) l.by_service,
            guarded (at scope_discrete (scope fl key) l.by_service) (series_cap fl l.cfg key.signal)
                (subst (λ x. is_pos (series_cap fl l.cfg x.signal) ≡ true) (sym e) h) r.series,
          ))
      | no ne ↦
          ground (arith, at-incr scope_discrete c (scope fl key) l.by_service, w.in_service c h)
    ]

    tenant_room :
        fl.ltb_f fl.zero_f l.cfg.series_per_tenant_fraction ≡ true
        → at ℕ_discrete key.tenant_id l.by_tenant + 1 ≤ pos_part (tenant_limit fl l.cfg)
    unfolding tenant_full
    tenant_room h = ground (
      arith,
      r.tenant,
      below_limit (at ℕ_discrete key.tenant_id l.by_tenant) (tenant_limit fl l.cfg)
          (tenant_limit_pos l.cfg),
    )

    charge-tenant :
        (t : ℕ)
        → fl.ltb_f fl.zero_f l.cfg.series_per_tenant_fraction ≡ true
        → at ℕ_discrete t (charge fl l key).by_tenant ≤ pos_part (tenant_limit fl l.cfg)
    unfolding charge
    charge-tenant t h = elim (ℕ_discrete key.tenant_id t) [
      | yes e ↦ rw (← e) (
          ground (arith, at-incr ℕ_discrete key.tenant_id key.tenant_id l.by_tenant, tenant_room h))
      | no ne ↦ ground (arith, at-incr ℕ_discrete t key.tenant_id l.by_tenant, w.in_tenant t h)
    ]

    module _ (window : ℕ) where
      charge-Within : Within (charge fl (mark fl l key window) key)
      unfolding charge mark
      charge-Within = record {
        in_total = charge-total;
        in_signal = charge-signal;
        in_service = charge-service;
        in_tenant = charge-tenant;
      }

      add_room-Within : Within (add fl l key window false)
      unfolding add
      add_room-Within =
          elim (Bool-cases (ltb 1 (at key_discrete key (mark fl l key window).windows))) [
            | inl h ↦ rw h (unfold mark in w)
            | inr h ↦ rw h charge-Within
          ]

  module _ (l : Limiter fl) (key : SeriesKey) (window : ℕ) (w : Within l) where
    add_active-Within : 0 < at key_discrete key l.windows → Within (add fl l key window false)
    unfolding add mark
    add_active-Within a =
        let e : ltb 1 (at key_discrete key (incr key_discrete key l.windows)) ≡ true =
          ground (arith, at-incr key_discrete key key l.windows) in
        rw e w

    add_overflow-Within : Within (add fl l key window true)
    unfolding add mark reserve
    add_overflow-Within =
        elim (Bool-cases (ltb 1 (at key_discrete key (incr key_discrete key l.windows)))) [
          | inl h ↦ rw h w
          | inr h ↦ rw h w
        ]

    admit_overflow-Within : Within (admit_overflow fl l key window).0
    unfolding admit_overflow
    admit_overflow-Within = elim (Bool-cases (is_present fl l key window)) [
      | inl h ↦ rw h w
      | inr h ↦ rw h add_overflow-Within
    ]

    discharge-Within : Within (discharge fl l key)
    unfolding discharge
    discharge-Within = record {
      in_total = λ h. omega (arith, w.in_total h);
      in_signal =
          λ s h. ground (arith, w.in_signal s h, at-decr ℕ_discrete s key.signal l.by_signal);
      in_service = λ c h. ground (
        arith,
        w.in_service c h,
        at-drop_empty scope_discrete c (scope fl key)
            (decr scope_discrete (scope fl key) l.by_service),
        at-decr scope_discrete c (scope fl key) l.by_service,
      );
      in_tenant = λ t h. ground (
        arith,
        w.in_tenant t h,
        at-drop_empty ℕ_discrete t key.tenant_id (decr ℕ_discrete key.tenant_id l.by_tenant),
        at-decr ℕ_discrete t key.tenant_id l.by_tenant,
      );
    }

  -- `Admit` keeps every counter within its cap.
  pub admit-Within :
      (l : Limiter fl) (key : SeriesKey) (window : ℕ) → Within l → Within (admit fl l key window).0
  unfolding route_overflow count_overflow
  admit-Within l key window w =
      admit_cases fl l key window (λ r. Within r.0) (λ _. w)
        (λ h why. elim why [
          | inl a ↦ add_active-Within l key window w a
          | inr e ↦ add_room-Within l key w (check-Room l key e) window
        ])
        (λ r _. admit_overflow-Within _ (overflow_key fl l.cfg key) window w)

  retire-Within : (l : Limiter fl) (key : SeriesKey) → Within l → Within (retire fl l key)
  unfolding retire unreserve
  retire-Within l key w = elim (Bool-cases (has key_discrete key l.overflow)) [
    | inl h ↦ rw h w
    | inr h ↦
        rw h (discharge-Within (record l { windows = delete key_discrete key l.windows }) key 0 w)
  ]

  -- `Release` keeps every counter within its cap.
  pub release-Within :
      (l : Limiter fl) (key : SeriesKey) (window : ℕ) → Within l → Within (release fl l key window)
  unfolding release
  release-Within l key window w = elim (Bool-cases (is_present fl l key window)) [
    | inl h ↦
        rw h (elim (Bool-cases (ltb 0 (at key_discrete key (unmark fl l key window).windows))) [
          | inl g ↦ rw g unmarked
          | inr g ↦ rw g (retire-Within (unmark fl l key window) key unmarked)
        ])
    | inr h ↦ rw h w
  ]
    where
      unmarked : Within (unmark fl l key window)
      unmarked = unfold unmark in w
