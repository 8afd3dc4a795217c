-- ===== src/Aggregate/Limiter/Runs.antt =====
-- cardinality.go: any history of `Admit` and `Release` calls on a new limiter.
use otelcontext.Base.{
  ℕ, ◌≤◌, ◌≡◌, refl, subst, ◌∙◌, Bool, true, false, List, [], ◌∷◌, arith, Float64, ℕ_discrete,
  pos_part, is_pos,
}
use otelcontext.Base.Map.{at, get}
use otelcontext.Aggregate.Key.{SeriesKey}
use otelcontext.Aggregate.Budget.{
  LimiterConfig, with_defaults, signal_cap, series_cap, tenant_limit, overflow_key,
}
use otelcontext.Aggregate.Limiter.{
  Limiter, ServiceScope, scope_discrete, new_limiter, mark, charge, reserve, add, admit_overflow,
  count_overflow, route_overflow, admit, release, unmark, retire, discharge, unreserve,
}
use otelcontext.Aggregate.Limiter.Census.{
  Census, new_limiter-Census, charged_by, of_any, of_signal, of_scope, of_tenant,
}
use otelcontext.Aggregate.Limiter.Leaving.{release-Census}
use otelcontext.Aggregate.Limiter.Admitting.{admit_cases, admit-Census}
use otelcontext.Aggregate.Limiter.Caps.{Within, admit-Within, release-Within}

pub data Op : Type 0 where
  admits releases : SeriesKey → ℕ → Op

-- The caps that bound the census, each for what it is a cap of.
pub data Cap : Type 0 where
  whole : Cap
  signal : ℕ → Cap
  service : ServiceScope → Cap
  tenant : ℕ → Cap

unfoldable pub cap_test : Cap → SeriesKey → Bool
cap_test whole = of_any
cap_test (signal s) = of_signal s
cap_test (service v) = of_scope v
cap_test (tenant t) = of_tenant t

module _ (fl : Float64) where
  unfoldable pub cap_enabled : LimiterConfig fl → Cap → Bool
  cap_enabled d whole = is_pos d.max_series
  cap_enabled d (signal s) = is_pos (signal_cap fl d s)
  cap_enabled d (service v) = is_pos (series_cap fl d v.signal)
  cap_enabled d (tenant t) = fl.ltb_f fl.zero_f d.series_per_tenant_fraction

  unfoldable pub cap_limit : LimiterConfig fl → Cap → ℕ
  cap_limit d whole = pos_part d.max_series
  cap_limit d (signal s) = pos_part (signal_cap fl d s)
  cap_limit d (service v) = pos_part (series_cap fl d v.signal)
  cap_limit d (tenant t) = pos_part (tenant_limit fl d)

  unfoldable pub step : Limiter fl → Op → Limiter fl
  step l (admits key window) = (admit fl l key window).0
  step l (releases key window) = release fl l key window

  unfoldable pub run : Limiter fl → List Op → Limiter fl
  run l [] = l
  run l (o ∷ os) = run (step l o) os

  run-Census : (os : List Op) (l : Limiter fl) → Census fl l → Census fl (run l os)
  unfolding run step
  run-Census [] l c = c
  run-Census (admits key window ∷ os) l c = run-Census os _ (admit-Census fl l key window c)
  run-Census (releases key window ∷ os) l c = run-Census os _ (release-Census fl l key window c)

  run-Within : (os : List Op) (l : Limiter fl) → Within fl l → Within fl (run l os)
  unfolding run step
  run-Within [] l w = w
  run-Within (admits key window ∷ os) l w = run-Within os _ (admit-Within fl l key window w)
  run-Within (releases key window ∷ os) l w = run-Within os _ (release-Within fl l key window w)

  cfg-add :
      (l : Limiter fl) (key : SeriesKey) (window : ℕ) (b : Bool)
      → (add fl l key window b).cfg ≡ l.cfg
  unfolding add mark reserve charge
  cfg-add l key window b = ground arith

  cfg-admit :
      (l : Limiter fl) (key : SeriesKey) (window : ℕ) → (admit fl l key window).0.cfg ≡ l.cfg
  unfolding route_overflow admit_overflow count_overflow
  cfg-admit l key window =
      admit_cases fl l key window (λ r. r.0.cfg ≡ l.cfg) (λ _. refl)
        (λ _ _. cfg-add l key window false)
        (λ r _.
          ground (arith, cfg-add (count_overflow fl l r) (overflow_key fl l.cfg key) window true))

  cfg-release :
      (l : Limiter fl) (key : SeriesKey) (window : ℕ) → (release fl l key window).cfg ≡ l.cfg
  unfolding release unmark retire discharge unreserve
  cfg-release l key window = ground arith

  cfg-run : (os : List Op) (l : Limiter fl) → (run l os).cfg ≡ l.cfg
  unfolding run step
  cfg-run [] l = refl
  cfg-run (admits key window ∷ os) l = cfg-run os _ ∙ cfg-admit l key window
  cfg-run (releases key window ∷ os) l = cfg-run os _ ∙ cfg-release l key window

  new_limiter-Within : (c : LimiterConfig fl) → Within fl (new_limiter fl c)
  unfolding new_limiter get
  new_limiter-Within c = record {
    in_total = λ h. omega arith;
    in_signal = λ s h. omega arith;
    in_service = λ s h. omega arith;
    in_tenant = λ s h. omega arith;
  }

  run-new-Census : (c : LimiterConfig fl) (os : List Op) → Census fl (run (new_limiter fl c) os)
  run-new-Census c os = run-Census os (new_limiter fl c) (new_limiter-Census fl c)

  -- After any history from a new limiter every counter is the number of distinct active series
  -- that it stands for, overflow series excepted: `total`, each signal's, each service's and each
  -- tenant's.
  pub run_counts :
      (c : LimiterConfig fl) (os : List Op)
      → let l = run (new_limiter fl c) os in
        (l.total ≡ charged_by fl l of_any)
        × ((s : ℕ) → at ℕ_discrete s l.by_signal ≡ charged_by fl l (of_signal s))
        × ((v : ServiceScope) → at scope_discrete v l.by_service ≡ charged_by fl l (of_scope v))
        × ((t : ℕ) → at ℕ_discrete t l.by_tenant ≡ charged_by fl l (of_tenant t))
  run_counts c os = let n = run-new-Census c os in (n.total, n.by_signal, n.by_service, n.by_tenant)

  cap_of :
      (c : Cap) (l : Limiter fl)
      → Census fl l
      → Within fl l
      → cap_enabled l.cfg c ≡ true
      → charged_by fl l (cap_test c) ≤ cap_limit l.cfg c
  unfolding cap_enabled cap_limit cap_test
  cap_of whole l n w h = rw (← n.total) (w.in_total h)
  cap_of (signal s) l n w h = rw (← n.by_signal s) (w.in_signal s h)
  cap_of (service v) l n w h = rw (← n.by_service v) (w.in_service v h)
  cap_of (tenant t) l n w h = rw (← n.by_tenant t) (w.in_tenant t h)

  cfg-run-new :
      (c : LimiterConfig fl) (os : List Op) → (run (new_limiter fl c) os).cfg ≡ with_defaults fl c
  unfolding new_limiter
  cfg-run-new c os = cfg-run os _

  -- After any history from a new limiter the distinct active series that an enabled cap is about,
  -- overflow series excepted, number at most that cap of the configuration with its defaults.
  pub run_bounded :
      (c : LimiterConfig fl) (os : List Op) (limit : Cap)
      → cap_enabled (with_defaults fl c) limit ≡ true
      → charged_by fl (run (new_limiter fl c) os) (cap_test limit)
        ≤ cap_limit (with_defaults fl c) limit
  run_bounded c os limit =
      let l = run (new_limiter fl c) os in
      subst (λ d. cap_enabled d limit ≡ true → charged_by fl l (cap_test limit) ≤ cap_limit d limit)
        (cfg-run-new c os)
        (cap_of limit l (run-new-Census c os) (run-Within os _ (new_limiter-Within c)))
