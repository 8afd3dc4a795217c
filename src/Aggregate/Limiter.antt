-- ===== src/Aggregate/Limiter.antt =====
-- internal/aggregate/cardinality.go: the active-series census and its admission control.
-- The mutex makes each method one step; the Go maps are `Map`s, and counters are numbers (the
-- census in the child `Census` shows that none is decremented at zero).
pub mod Charged
pub mod Census
pub mod Leaving
pub mod Admitting
pub mod Caps
pub mod Runs
pub mod Names
mod Tests
use otelcontext.Base.{
  ℕ, ◌+◌, ◌-◌, Bool, true, false, ◌&&◌, not, Option, none, some, [], ltb, ◌==◌, if◌then◌else◌,
  is_pos, at_limit, Float64, ℕ_discrete,
}
use otelcontext.Base.Map.{Map, size, get, put, delete, has, at, incr, decr, drop_empty}
use otelcontext.Aggregate.Key.{SeriesKey, key_discrete}
use otelcontext.Aggregate.Budget.{
  OverflowReason, tenant, service_names, service_series, signal_full, global, reason_discrete,
  LimiterConfig, with_defaults, name_cap, series_cap, signal_cap, tenant_limit, overflow_key,
}

pub record ServiceScope : Type 0 where
  pub tenant : ℕ
  pub service : ℕ
  pub signal : ℕ

unfoldable pub scope_discrete : Discrete ServiceScope
scope_discrete = hlevel ℕ_discrete

-- Window starts are Unix seconds; only their identity counts.
pub record SeriesWindowKey : Type 0 where
  pub key : SeriesKey
  pub window_start : ℕ

unfoldable pub window_key_discrete : Discrete SeriesWindowKey
window_key_discrete = hlevel (key_discrete, ℕ_discrete)

module _ (fl : Float64) where
  open fl use {zero_f, ltb_f}

  pub record Admission : Type 0 where
    pub key : SeriesKey
    pub overflowed : Bool
    pub reason : Option OverflowReason
    pub reserved : Bool

  pub record Limiter : Type 0 where
    pub cfg : LimiterConfig fl
    pub present : Map SeriesWindowKey (Unit {0})
    pub windows : Map SeriesKey ℕ
    pub total : ℕ
    pub by_signal : Map ℕ ℕ
    pub by_service : Map ServiceScope ℕ
    pub names : Map ServiceScope (Map ℕ (Unit {0}))
    pub by_tenant : Map ℕ ℕ
    pub overflow : Map SeriesKey (Unit {0})
    pub overflow_by_signal : Map ℕ ℕ
    pub overflow_counts : Map OverflowReason ℕ

  unfoldable pub new_limiter : LimiterConfig fl → Limiter
  new_limiter cfg = record {
    cfg = with_defaults fl cfg;
    present = [];
    windows = [];
    total = 0;
    by_signal = [];
    by_service = [];
    names = [];
    by_tenant = [];
    overflow = [];
    overflow_by_signal = [];
    overflow_counts = [];
  }

  abbrev pub scope : SeriesKey → ServiceScope
  scope k = record { tenant = k.tenant_id; service = k.service_id; signal = k.signal }

  abbrev pub names_of : Option (Map ℕ (Unit {0})) → Map ℕ (Unit {0})
  names_of none = []
  names_of (some m) = m

  unfoldable pub tenant_full : Limiter → SeriesKey → Bool
  tenant_full l key =
      ltb_f zero_f l.cfg.series_per_tenant_fraction
      && at_limit (at ℕ_discrete key.tenant_id l.by_tenant) (tenant_limit fl l.cfg)

  unfoldable pub names_full : Limiter → SeriesKey → Bool
  names_full l key =
      let names = names_of (get scope_discrete (scope key) l.names) in
      is_pos (name_cap fl l.cfg key.signal)
      && at_limit (size names) (name_cap fl l.cfg key.signal)
      && not (has ℕ_discrete key.name_id names)

  unfoldable pub series_full : Limiter → SeriesKey → Bool
  series_full l key =
      is_pos (series_cap fl l.cfg key.signal)
      && at_limit (at scope_discrete (scope key) l.by_service) (series_cap fl l.cfg key.signal)

  unfoldable pub signal_is_full : Limiter → SeriesKey → Bool
  signal_is_full l key =
      is_pos (signal_cap fl l.cfg key.signal)
      && at_limit (at ℕ_discrete key.signal l.by_signal) (signal_cap fl l.cfg key.signal)

  unfoldable pub global_full : Limiter → Bool
  global_full l = is_pos l.cfg.max_series && at_limit l.total l.cfg.max_series

  -- `none` is OverflowNone.
  unfoldable pub check : Limiter → SeriesKey → Option OverflowReason
  check l key =
      if tenant_full l key
      then some tenant
      else if names_full l key
      then some service_names
      else if series_full l key
      then some service_series
      else if signal_is_full l key
      then some signal_full
      else if global_full l
      then some global
      else none

  abbrev pub window_key : SeriesKey → ℕ → SeriesWindowKey
  window_key key window = record { key = key; window_start = window }

  unfoldable pub remember_name : Limiter → SeriesKey → Map ServiceScope (Map ℕ (Unit {0}))
  remember_name l key =
      if is_pos (name_cap fl l.cfg key.signal)
      then put scope_discrete (scope key)
          (put ℕ_discrete key.name_id tt (names_of (get scope_discrete (scope key) l.names)))
          l.names
      else l.names

  -- The part of `addLocked` that charges a series' first window to the budget.
  unfoldable pub charge : Limiter → SeriesKey → Limiter
  charge l key = record l {
    total = l.total + 1;
    by_signal = incr ℕ_discrete key.signal l.by_signal;
    by_service = incr scope_discrete (scope key) l.by_service;
    by_tenant = incr ℕ_discrete key.tenant_id l.by_tenant;
    names = remember_name l key;
  }

  unfoldable pub reserve : Limiter → SeriesKey → Limiter
  reserve l key = record l {
    overflow = put key_discrete key tt l.overflow;
    overflow_by_signal = incr ℕ_discrete key.signal l.overflow_by_signal;
  }

  unfoldable pub mark : Limiter → SeriesKey → ℕ → Limiter
  mark l key window = record l {
    present = put window_key_discrete (window_key key window) tt l.present;
    windows = incr key_discrete key l.windows;
  }

  unfoldable pub add : Limiter → SeriesKey → ℕ → Bool → Limiter
  add l key window is_overflow =
      let l' = mark l key window in
      if ltb 1 (at key_discrete key l'.windows)
      then l'
      else if is_overflow
      then reserve l' key
      else charge l' key

  unfoldable pub is_present : Limiter → SeriesKey → ℕ → Bool
  is_present l key window = has window_key_discrete (window_key key window) l.present

  unfoldable pub admit_overflow : Limiter → SeriesKey → ℕ → Limiter × Bool
  admit_overflow l other window =
      if is_present l other window then (l, false) else (add l other window true, true)

  abbrev pub admitted : SeriesKey → Bool → Admission
  admitted key reserved = record {
    key = key;
    overflowed = false;
    reason = none;
    reserved = reserved;
  }

  unfoldable pub count_overflow : Limiter → OverflowReason → Limiter
  count_overflow l r = record l { overflow_counts = incr reason_discrete r l.overflow_counts }

  unfoldable pub route_overflow : Limiter → SeriesKey → ℕ → OverflowReason → Limiter × Admission
  route_overflow l key window r =
      let other = overflow_key fl l.cfg key in
      let (l', reserved) = admit_overflow (count_overflow l r) other window in
      (l', record { key = other; overflowed = true; reason = some r; reserved = reserved })

  unfoldable pub admit : Limiter → SeriesKey → ℕ → Limiter × Admission
  admit l key window =
      if is_present l key window
      then (l, admitted key false)
      else if ltb 0 (at key_discrete key l.windows)
      then (add l key window false, admitted key true)
      else elim (check l key) [
        | some r ↦ route_overflow l key window r
        | none ↦ (add l key window false, admitted key true)
      ]

  pub forget_name : Limiter → SeriesKey → Map ServiceScope (Map ℕ (Unit {0}))
  forget_name l key = elim (get scope_discrete (scope key) l.names) [
    | none ↦ l.names
    | some names ↦
        let rest = delete ℕ_discrete key.name_id names in
        if size rest == 0
        then delete scope_discrete (scope key) l.names
        else put scope_discrete (scope key) rest l.names
  ]

  pub discharge : Limiter → SeriesKey → Limiter
  discharge l key = record l {
    total = l.total - 1;
    by_signal = decr ℕ_discrete key.signal l.by_signal;
    by_service =
        drop_empty scope_discrete (scope key) (decr scope_discrete (scope key) l.by_service);
    by_tenant = drop_empty ℕ_discrete key.tenant_id (decr ℕ_discrete key.tenant_id l.by_tenant);
    names = forget_name l key;
  }

  pub unreserve : Limiter → SeriesKey → Limiter
  unreserve l key = record l {
    overflow = delete key_discrete key l.overflow;
    overflow_by_signal =
        drop_empty ℕ_discrete key.signal (decr ℕ_discrete key.signal l.overflow_by_signal);
  }

  pub unmark : Limiter → SeriesKey → ℕ → Limiter
  unmark l key window = record l {
    present = delete window_key_discrete (window_key key window) l.present;
    windows = decr key_discrete key l.windows;
  }

  -- The end of `releaseLocked`, where the series has left its last window.
  pub retire : Limiter → SeriesKey → Limiter
  retire l key =
      let l' = record l { windows = delete key_discrete key l.windows } in
      if has key_discrete key l.overflow then unreserve l' key else discharge l' key

  pub release : Limiter → SeriesKey → ℕ → Limiter
  release l key window =
      if is_present l key window
      then (let l' = unmark l key window in
          if ltb 0 (at key_discrete key l'.windows) then l' else retire l' key)
      else l

  pub admitted_key : Limiter → SeriesKey → ℕ → SeriesKey × Bool
  admitted_key l key window =
      if is_present l key window
      then (key, true)
      else (let other = overflow_key fl l.cfg key in (other, is_present l other window))

  pub is_overflow_series : Limiter → SeriesKey → Bool
  is_overflow_series l key = has key_discrete key l.overflow
