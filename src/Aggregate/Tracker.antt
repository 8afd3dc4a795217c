-- ===== src/Aggregate/Tracker.antt =====
-- internal/aggregate/temporality.go: the baseline tracker's state, one baseline per series and
-- producer, and the ledger of increases whose group commit failed.
-- A `time.Time` is its nanoseconds since the epoch; the counters of the statistics do not wrap.
use otelcontext.Base.{
  ℕ, ◌+◌, ◌-◌, ◌*◌, ◌^◌, Bool, ◌&&◌, not, Option, none, some, [], ◌==◌, if◌then◌else◌, min, ℤ, pos,
  pos_part, is_pos, Float64, ℕ_discrete,
}
use otelcontext.Base.Map.{Map, get, put, has}
use otelcontext.Aggregate.Key.{SeriesKey, key_discrete}

abbrev pub degraded_producer : ℕ
degraded_producer = 0

-- `Temporality`: 0 unspecified, 1 delta, 2 cumulative.
unfoldable pub is_gauge_like : ℕ → Bool → Bool
is_gauge_like temporality monotonic = not (temporality == 1) && not monotonic

pub data ResetReason : Type 0 where
  start_time_change value_regression : ResetReason

pub record BaselineRef : Type 0 where
  pub key : SeriesKey
  pub producer : ℕ

pub ref_discrete : Discrete BaselineRef
ref_discrete = hlevel (key_discrete, ℕ_discrete)

pub record BaselineTrackerConfig : Type 0 where
  pub max_producers_per_series : ℤ
  pub max_baselines : ℤ
  pub gap_threshold : ℤ

-- `AllowedLateness`, ten minutes.
abbrev pub allowed_lateness : ℕ
allowed_lateness = 600 * 10 ^ 9

abbrev or_default : ℤ → ℕ → ℤ
or_default z n = if is_pos z then z else pos n

unfoldable pub resolve_config : BaselineTrackerConfig → BaselineTrackerConfig
resolve_config c =
    let producers = or_default c.max_producers_per_series 8 in
    record {
      max_producers_per_series = producers;
      max_baselines = or_default c.max_baselines (pos_part producers * 2400);
      gap_threshold = or_default c.gap_threshold allowed_lateness;
    }

-- `ts.Sub(last)` of a later `ts`, which saturates at the largest Duration.
unfoldable pub elapsed : ℕ → ℕ → ℕ
elapsed ts last = min (ts - last) (2 ^ 63 - 1)

module _ (fl : Float64) where
  open fl use {F, zero_f, add_f, sub_f, ltb_f, eqb_f}

  pub record Baseline : Type 0 where
    pub start_time : ℕ
    pub last_timestamp : ℕ
    pub value : F

  pub record BaselineState : Type 0 where
    pub baseline : Baseline
    pub pending : F
    pub owed : F

  pub record DirtyBaseline : Type 0 where
    pub key : SeriesKey
    pub producer : ℕ
    pub baseline : Baseline
    pub inflight : F

  pub record CumulativeOutcome : Type 0 where
    pub delta : F
    pub ignored : Bool
    pub seeded : Bool
    pub gap : Bool
    pub reset : Bool
    pub reason : Option ResetReason
    pub degraded : Bool
    pub recovered : Bool

  pub record Tracker : Type 0 where
    pub cfg : BaselineTrackerConfig
    pub series : Map SeriesKey (Map ℕ BaselineState)
    pub dirty : Map BaselineRef (Unit {0})
    pub entries : ℕ
    pub owed : ℕ
    pub stale : ℕ
    pub seeded : ℕ
    pub gaps : ℕ
    pub resets_start_time : ℕ
    pub resets_regression : ℕ
    pub producer_overflow : ℕ
    pub global_overflow : ℕ
    pub recovered : ℕ
    pub stranded : ℕ

  unfoldable pub new_tracker : BaselineTrackerConfig → Tracker
  new_tracker c = record {
    cfg = resolve_config c;
    series = [];
    dirty = [];
    entries = 0;
    owed = 0;
    stale = 0;
    seeded = 0;
    gaps = 0;
    resets_start_time = 0;
    resets_regression = 0;
    producer_overflow = 0;
    global_overflow = 0;
    recovered = 0;
    stranded = 0;
  }

  abbrev pub producers_of : Option (Map ℕ BaselineState) → Map ℕ BaselineState
  producers_of none = []
  producers_of (some m) = m

  -- `t.series[key]`, empty where there is none
  unfoldable pub by_producer : Tracker → SeriesKey → Map ℕ BaselineState
  by_producer t key = producers_of (get key_discrete key t.series)

  unfoldable pub state_of : Tracker → SeriesKey → ℕ → Option BaselineState
  state_of t key producer = get ℕ_discrete producer (by_producer t key)

  unfoldable pub set_state : Tracker → SeriesKey → ℕ → BaselineState → Tracker
  set_state t key producer st = record t {
    series = put key_discrete key (put ℕ_discrete producer st (by_producer t key)) t.series;
  }

  unfoldable pub mark_dirty : Tracker → SeriesKey → ℕ → Tracker
  mark_dirty t key producer = record t {
    dirty = put ref_discrete (record { key = key; producer = producer }) tt t.dirty;
  }

  abbrev pub fresh_state : Baseline → BaselineState
  fresh_state b = record { baseline = b; pending = zero_f; owed = zero_f }

  unfoldable pub seed : Tracker → SeriesKey → ℕ → Baseline → Tracker
  seed t key producer b =
      let t' = set_state t key producer (fresh_state b) in
      if has ℕ_discrete producer (by_producer t key)
      then t'
      else record t' { entries = t.entries + 1 }
