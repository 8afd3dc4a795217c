-- ===== src/Aggregate/Engine.antt =====
-- internal/aggregate/engine.go: the mutable windows, their admission and their hand-over.
-- A series is always in the shard of its hash, so the shards are one map from a series and window
-- to its delta. A method that holds the ownership mutex is one step. Times are Unix seconds. The
-- topology, the metrics and the read path change nothing of this state.
pub mod Occupancy
pub mod HandOver
pub mod Planning
pub mod History
pub mod Conservation
pub mod LateCommit
pub mod Closed
pub mod Samples
mod Tests
use otelcontext.Base.{
  ℕ, zero, suc, ◌+◌, ◌-◌, Bool, true, false, ◌||◌, Option, none, some, List, [], ◌∷◌, ◌++◌, ltb,
  leb, ◌==◌, if◌then◌else◌, ℤ, pos, negsuc, length, take, Float64, ℕ_discrete, dec_bool, max,
}
use otelcontext.Base.Map.{Map, size, get, put, delete, has}
use otelcontext.Aggregate.Key.{SeriesKey}
use otelcontext.Aggregate.Budget.{LimiterConfig, with_defaults}
use otelcontext.Aggregate.Limiter.{
  Limiter, new_limiter, SeriesWindowKey, window_key_discrete, window_key, admit, release,
}
use otelcontext.Aggregate.Delta.{AggregateDelta, empty_delta}
use otelcontext.Aggregate.Delta as Delta

-- `WindowSize` and `AllowedLateness`, in seconds.
abbrev pub window_size : ℕ
window_size = 300

abbrev pub allowed_lateness : ℕ
allowed_lateness = 600

-- `start <= now - WindowSize - AllowedLateness`
unfoldable pub past_lateness : ℕ → ℕ → Bool
past_lateness now start = leb (start + window_size + allowed_lateness) now

-- The windows whose lateness has expired, marked as closed.
unfoldable pub close_due : ℕ → Map ℕ (Unit {0}) → Map ℕ (Unit {0}) → Map ℕ (Unit {0})
close_due now [] closed = closed
close_due now ((start, u) ∷ mutable) closed =
    close_due now mutable
      (if past_lateness now start then put ℕ_discrete start tt closed else closed)

-- `sort.Slice` on window starts.
unfoldable pub insert_start : ℕ → List ℕ → List ℕ
insert_start n [] = n ∷ []
insert_start n (m ∷ ms) = let rest = insert_start n ms in if leb n m then n ∷ m ∷ ms else m ∷ rest

unfoldable pub sorted_starts : Map ℕ (Unit {0}) → List ℕ
sorted_starts [] = []
sorted_starts ((n, u) ∷ m) = insert_start n (sorted_starts m)

-- `DefaultMaxClosedWindows`
abbrev default_max_closed_windows : ℕ
default_max_closed_windows = 12

-- `overCapClosedLocked`
unfoldable pub over_cap_closed : ℤ → Map ℕ (Unit {0}) → List ℕ
over_cap_closed (negsuc n) closed = []
over_cap_closed (pos n) closed = take (size closed - n) (sorted_starts closed)

module _ {D : Type 0} where
  -- The series of one window, and the shards without it.
  unfoldable pub window_entries : ℕ → Map SeriesWindowKey D → List SeriesWindowKey
  window_entries start [] = []
  window_entries start ((k, d) ∷ m) =
      let rest = window_entries start m in if k.window_start == start then k ∷ rest else rest

  unfoldable pub without_window : ℕ → Map SeriesWindowKey D → Map SeriesWindowKey D
  without_window start [] = []
  without_window start ((k, d) ∷ m) =
      let rest = without_window start m in if k.window_start == start then rest else (k, d) ∷ rest

-- Zero takes the default.
abbrev closed_cap : ℤ → ℤ
closed_cap (negsuc n) = negsuc n
closed_cap (pos n) = if n == 0 then pos default_max_closed_windows else pos n

module _ (fl : Float64) where
  abbrev pub DeltaMap : Type 0
  DeltaMap = Map SeriesWindowKey (AggregateDelta fl)

  pub record Engine : Type 0 where
    pub limiter : Limiter fl
    pub shards : DeltaMap
    pub mutable : Map ℕ (Unit {0})
    pub closed : Map ℕ (Unit {0})
    pub watermark : ℕ
    pub revision : ℕ
    pub max_closed_windows : ℤ
    pub windows_discarded : ℕ
    pub series_discarded : ℕ
    pub closed_forced : ℕ

  -- What `NewEngine` builds from a valid configuration, with the resolver of the __other__ names.
  unfoldable pub new_engine : LimiterConfig fl → (ℕ → ℕ → ℕ) → ℤ → Engine
  new_engine cfg other_name_id max_closed = record {
    limiter = new_limiter fl (record (with_defaults fl cfg) { other_name_id = some other_name_id });
    shards = [];
    mutable = [];
    closed = [];
    watermark = 0;
    revision = 0;
    max_closed_windows = closed_cap max_closed;
    windows_discarded = 0;
    series_discarded = 0;
    closed_forced = 0;
  }

  unfoldable pub release_all : Limiter fl → List SeriesWindowKey → Limiter fl
  release_all l [] = l
  release_all l (k ∷ ks) = release_all (release fl l k.key k.window_start) ks

  -- `evictWindowLocked`, with the ownership that goes to the store.
  unfoldable pub hand_over : Engine → ℕ → Engine
  hand_over e start = record e {
    shards = without_window start e.shards;
    mutable = delete ℕ_discrete start e.mutable;
    closed = delete ℕ_discrete start e.closed;
    watermark = max start e.watermark;
  }

  unfoldable pub force_out : List ℕ → Engine → Engine × List SeriesWindowKey
  force_out [] e = (e, [])
  force_out (start ∷ starts) e =
      let rest = force_out starts (hand_over e start) in
      (rest.0, window_entries start e.shards ++ rest.1)

  unfoldable pub rollover : ℕ → Engine → Engine
  rollover now e =
      let closing = record e { closed = close_due now e.mutable e.closed } in
      let starts = over_cap_closed e.max_closed_windows closing.closed in
      let r = force_out starts closing in
      record r.0 {
        limiter = release_all r.0.limiter r.1;
        windows_discarded = r.0.windows_discarded + length starts;
        series_discarded = r.0.series_discarded + length r.1;
        closed_forced = r.0.closed_forced + length starts;
      }

  unfoldable pub mark_finalized : Engine → ℕ → Engine
  mark_finalized e start =
      let released = window_entries start e.shards in
      record (hand_over e start) {
        limiter = release_all e.limiter released;
        series_discarded = e.series_discarded + length released;
      }

  -- `AdmissionPlan`
  pub record Plan : Type 0 where
    pub resolved : DeltaMap
    pub reserved : List SeriesWindowKey

  -- The delta that a target gets when another series went to it before.
  unfoldable pub collapsed : Option (AggregateDelta fl) → AggregateDelta fl → AggregateDelta fl
  collapsed none d = d
  collapsed (some existing) d = Delta.merge fl (Delta.merge fl (empty_delta fl) existing) d

  unfoldable pub resolve : Engine × Plan → SeriesWindowKey → AggregateDelta fl → Engine × Plan
  resolve (e, p) k d =
      let r = admit fl e.limiter k.key k.window_start in
      let target = window_key fl r.1.key k.window_start in
      (
        record e { limiter = r.0 },
        record {
          resolved =
              put window_key_discrete target
                (collapsed (get window_key_discrete target p.resolved) d) p.resolved;
          reserved = if r.1.reserved then target ∷ p.reserved else p.reserved;
        },
      )

  -- One round of the loop of `PlanAdmission`, and the loop.
  unfoldable pub plan_entry :
      ℕ → SeriesWindowKey → AggregateDelta fl → Engine × Plan → Engine × Plan
  plan_entry now k d s =
      if past_lateness now k.window_start
      then (record s.0 { series_discarded = s.0.series_discarded + 1 }, s.1)
      else resolve s k d

  unfoldable pub plan_entries : ℕ → DeltaMap → Engine × Plan → Engine × Plan
  plan_entries now [] s = s
  plan_entries now ((k, d) ∷ m) s = plan_entries now m (plan_entry now k d s)

  abbrev pub no_plan : Plan
  no_plan = record { resolved = []; reserved = [] }

  -- `PlanAdmission`, which reads the clock for the rollover and again for the cutoff.
  unfoldable pub plan_admission : ℕ → ℕ → Engine → DeltaMap → Engine × Plan
  plan_admission now later e [] = (e, no_plan)
  plan_admission now later e (entry ∷ m) = plan_entries later (entry ∷ m) (rollover now e, no_plan)

  unfoldable pub applied : Option (AggregateDelta fl) → AggregateDelta fl → AggregateDelta fl
  applied none d = d
  applied (some cur) d = Delta.merge fl cur d

  -- `applyShard` over all shards.
  unfoldable pub apply_resolved : DeltaMap → DeltaMap → DeltaMap
  apply_resolved [] shards = shards
  apply_resolved ((k, d) ∷ m) shards =
      apply_resolved m
        (put window_key_discrete k (applied (get window_key_discrete k shards) d) shards)

  unfoldable pub own_windows : DeltaMap → Map ℕ (Unit {0}) → Map ℕ (Unit {0})
  own_windows [] mutable = mutable
  own_windows ((k, d) ∷ m) mutable = own_windows m (put ℕ_discrete k.window_start tt mutable)

  unfoldable pub commit_admission : Engine → Plan → Engine
  commit_admission e p = if size p.resolved == 0 then e else record e {
    shards = apply_resolved p.resolved e.shards;
    mutable = own_windows p.resolved e.mutable;
    revision = e.revision + 1;
  }

  unfoldable pub rollback_admission : Engine → Plan → Engine
  rollback_admission e p = record e { limiter = release_all e.limiter p.reserved }
