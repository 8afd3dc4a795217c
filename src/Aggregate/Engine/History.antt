-- ===== src/Aggregate/Engine/History.antt =====
-- engine.go under the writer's commits and the finalizer: any history of plans, their commits and
-- rollbacks, and hand-overs of windows that no plan under way touches.
use otelcontext.Base.{ℕ, ◌≡◌, true, ℤ, Float64}
use otelcontext.Base.Map.{get}
use otelcontext.Aggregate.Budget.{LimiterConfig}
use otelcontext.Aggregate.Limiter.{SeriesWindowKey}
use otelcontext.Aggregate.Limiter.Admitting.Presence.{holds, holds-new_limiter}
use otelcontext.Aggregate.Engine.{
  Engine, Plan, DeltaMap, new_engine, plan_admission, commit_admission, rollback_admission,
  mark_finalized,
}
use otelcontext.Aggregate.Engine.HandOver.{Settled, stored, owned}
use otelcontext.Aggregate.Engine.Planning.{
  UnderWay, Untouched, plan_admission-UnderWay, commit-Settled, rollback-Settled,
  mark_finalized-UnderWay, mark_finalized-Settled,
}

module _ (fl : Float64) where
  -- The writer is between two batches, or has planned one.
  pub data Stage : Type 0 where
    idle : Engine fl → Stage
    planned : Engine fl × Plan fl → Stage

  pub data Step : Stage → Stage → Type 0 where
    plan :
        {e : Engine fl} (now later : ℕ) (m : DeltaMap fl)
        → Step (idle e) (planned (plan_admission fl now later e m))
    commit : {e : Engine fl} {p : Plan fl} → Step (planned (e, p)) (idle (commit_admission fl e p))
    roll_back :
        {e : Engine fl} {p : Plan fl} → Step (planned (e, p)) (idle (rollback_admission fl e p))
    finalize_idle : {e : Engine fl} (start : ℕ) → Step (idle e) (idle (mark_finalized fl e start))
    finalize :
        {e : Engine fl} {p : Plan fl} (start : ℕ)
        → Untouched fl p start
        → Step (planned (e, p)) (planned (mark_finalized fl e start, p))

  pub data Run : Stage → Stage → Type 0 where
    stop : {s : Stage} → Run s s
    go : {s t u : Stage} → Step s t → Run t u → Run s u

  abbrev Accounted : Stage → Type 0
  Accounted (idle e) = Settled fl e
  Accounted (planned s) = UnderWay fl s

  Step-Accounted : {s t : Stage} → Step s t → Accounted s → Accounted t
  Step-Accounted (plan {e} now later m) h = plan_admission-UnderWay fl now later e m h
  Step-Accounted (commit {e} {p}) h = commit-Settled fl e p h
  Step-Accounted (roll_back {e} {p}) h = rollback-Settled fl e p h
  Step-Accounted (finalize_idle {e} start) h = mark_finalized-Settled fl e start h
  Step-Accounted (finalize {e} {p} start u) h = mark_finalized-UnderWay fl e p start u h

  Run-Accounted : {s t : Stage} → Run s t → Accounted s → Accounted t
  Run-Accounted stop h = h
  Run-Accounted (go x r) h = Run-Accounted r (Step-Accounted x h)

  pub new_engine-Settled :
      (cfg : LimiterConfig fl) (other_name_id : ℕ → ℕ → ℕ) (max_closed : ℤ)
      → Settled fl (new_engine fl cfg other_name_id max_closed)
  unfolding new_engine get
  new_engine-Settled cfg other_name_id max_closed k = (holds-new_limiter fl _ k, λ h. absurd (cc))

  -- After any history of a new engine, of plans each committed or rolled back and of windows that
  -- the finalizer takes, none of them touched by a plan under way: when no plan is open, the
  -- limiter holds exactly the series of the shards, each in its window, and memory owns those
  -- windows.
  pub history_accounted :
      (cfg : LimiterConfig fl) (other_name_id : ℕ → ℕ → ℕ) (max_closed : ℤ) (e : Engine fl)
      → Run (idle (new_engine fl cfg other_name_id max_closed)) (idle e)
      → (k : SeriesWindowKey)
      → (holds fl e.limiter k ≡ stored fl e k)
        × (stored fl e k ≡ true → owned fl e k.window_start ≡ true)
  history_accounted cfg other_name_id max_closed e r =
      Run-Accounted r (new_engine-Settled cfg other_name_id max_closed)
