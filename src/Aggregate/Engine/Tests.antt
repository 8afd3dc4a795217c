-- ===== src/Aggregate/Engine/Tests.antt =====
-- engine.go over whole numbers: two operations of one service, where the budget knows one.
use otelcontext.Base.{◌+◌, ◌-◌, ◌≡◌, refl, true, false, [], ◌∷◌, pos, ℕ_discrete, ◌≤◌}
use otelcontext.Base.Samples.{whole_float}
use otelcontext.Base.Map.{get, size, put, delete, incr}
use otelcontext.Base.Map.Weigh.{weigh}
use otelcontext.Aggregate.Key.{key_discrete}
use otelcontext.Aggregate.Budget.{
  with_defaults, name_cap, series_cap, signal_cap, tenant_limit, overflow_key, reason_discrete,
}
use otelcontext.Aggregate.Limiter.{
  new_limiter, admit, is_present, window_key_discrete, scope_discrete, check, tenant_full,
  names_full, series_full, signal_is_full, global_full, add, mark, charge, remember_name,
  route_overflow, count_overflow, admit_overflow, reserve,
}
use otelcontext.Aggregate.Limiter.Admitting.Presence.{holds}
use otelcontext.Aggregate.Delta.{merge, merge_counts}
use otelcontext.Aggregate.Engine.{
  Engine, Plan, new_engine, plan_admission, plan_entries, plan_entry, resolve, past_lateness,
  rollover, close_due, over_cap_closed, sorted_starts, insert_start, hand_over, force_out,
  release_all, commit_admission, apply_resolved, own_windows, mark_finalized, applied, collapsed,
}
use otelcontext.Aggregate.Engine.Samples.{small, rest, points, fresh, batch}
use otelcontext.Aggregate.Engine.HandOver.{stored, owned}
use otelcontext.Aggregate.Engine.History.{plan, commit, go, stop, history_accounted}
use otelcontext.Aggregate.Engine.Conservation.{counted}
use otelcontext.Aggregate.Engine.Closed.{rollover_capped}
use otelcontext.Aggregate.Engine.LateCommit.{late_commit_reopens}

abbrev first_plan : Engine whole_float × Plan whole_float
first_plan = plan_admission whole_float 400 400 fresh batch

abbrev served : Engine whole_float
served = commit_admission whole_float first_plan.0 first_plan.1

-- The second and third operation share the overflow series, which the limiter holds as well.
served_series :
    (size served.shards ≡ 2)
    × (counted whole_float served.shards ≡ 9)
    × (stored whole_float served rest ≡ true)
    × (holds whole_float served.limiter rest ≡ true)
    × (owned whole_float served 300 ≡ true)
unfolding new_engine plan_admission plan_entries plan_entry resolve rollover close_due
    over_cap_closed sorted_starts force_out release_all commit_admission apply_resolved own_windows
    applied collapsed past_lateness size weigh new_limiter with_defaults admit check tenant_full
    names_full series_full signal_is_full global_full name_cap series_cap signal_cap tenant_limit
    add mark charge remember_name is_present incr get put key_discrete scope_discrete
    window_key_discrete ℕ_discrete route_overflow count_overflow admit_overflow reserve overflow_key
    reason_discrete merge merge_counts
served_series = (refl, refl, refl, refl, refl)

history_accounted_example :
    (holds whole_float served.limiter rest ≡ stored whole_float served rest)
    × (stored whole_float served rest ≡ true → owned whole_float served 300 ≡ true)
history_accounted_example =
    history_accounted whole_float small (λ t s. 99) (pos 1) served
      (go (plan 400 400 batch) (go commit stop)) rest

-- Another batch for the overflow series, planned before the finalizer takes window 300.
abbrev second_plan : Plan whole_float
second_plan = record { resolved = (rest, points 1) ∷ []; reserved = [] }

late_commit_reopens_example :
    let e = commit_admission whole_float (mark_finalized whole_float served 300) second_plan in
    (300 ≤ e.watermark)
    × (owned whole_float e 300 ≡ true)
    × (stored whole_float e rest ≡ true)
    × (holds whole_float e.limiter rest ≡ false)
unfolding get window_key_discrete key_discrete ℕ_discrete
late_commit_reopens_example =
    late_commit_reopens whole_float served second_plan rest served_series.2 refl

-- Three windows, of which two are due where one may stay closed.
abbrev three_windows : Engine whole_float
three_windows = record fresh { mutable = (300, tt) ∷ (600, tt) ∷ (2400, tt) ∷ [] }

rollover_capped_example :
    (size (rollover whole_float 2400 three_windows).closed ≤ 1)
    × ((rollover whole_float 2400 three_windows).windows_discarded
        ≡ 0 + (size (close_due 2400 three_windows.mutable []) - 1))
unfolding new_engine
rollover_capped_example = rollover_capped whole_float 2400 1 three_windows tt refl

one_forced : (rollover whole_float 2400 three_windows).closed ≡ (600, tt) ∷ []
unfolding new_engine rollover close_due past_lateness put over_cap_closed size sorted_starts
    insert_start force_out hand_over delete ℕ_discrete
one_forced = refl
