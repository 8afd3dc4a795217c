-- ===== src/Aggregate/Writer.antt =====
-- internal/aggregate/writer.go: the admission of submissions and the group commit over the engine
-- and the baseline tracker. The answer of the store's transaction is a parameter, and so is the
-- time. The series registry, the dictionary registrar and the miner add rows to the transaction;
-- nothing of this state depends on them, and they are left out.
pub mod Budget
pub mod Settling
mod Tests
use otelcontext.Base.{
  ℕ, ◌+◌, ◌-◌, Bool, true, false, Option, none, some, List, [], ◌∷◌, ltb, leb, if◌then◌else◌,
  Float64,
}
use otelcontext.Base.Map.{size, get, put}
use otelcontext.Aggregate.Limiter.{window_key_discrete}
use otelcontext.Aggregate.Tracker.{Tracker, DirtyBaseline}
use otelcontext.Aggregate.Cumulative.{drain_dirty, rollback}
use otelcontext.Aggregate.Engine.{
  Engine, Plan, DeltaMap, apply_resolved, plan_admission, commit_admission, rollback_admission,
}

-- The bound that refuses a submission.
pub data Bound : Type 0 where
  waiters : Bound
  bytes : Bound
  deltas : Bound

pub record Saturation : Type 0 where
  pub bound : Bound
  pub current : ℕ
  pub limit : ℕ

-- The bounds and the occupancy under the mutex.
pub record Pending : Type 0 where
  pub max_waiters : ℕ
  pub max_bytes : ℕ
  pub max_deltas : ℕ
  pub waiting : ℕ
  pub pending_bytes : ℕ
  pub pending_deltas : ℕ
  pub rejections : ℕ

saturated : Pending → Bound → ℕ → ℕ → Pending × Option Saturation
saturated p bound current limit = (
  record p { rejections = p.rejections + 1 },
  some (record { bound = bound; current = current; limit = limit }),
)

-- `admit` of a submission of so many bytes and deltas.
unfoldable pub admit : Pending → ℕ → ℕ → Pending × Option Saturation
unfolding saturated
admit p size count =
    if leb p.max_waiters p.waiting
    then saturated p waiters p.waiting p.max_waiters
    else if ltb p.max_bytes (p.pending_bytes + size)
    then saturated p bytes (p.pending_bytes + size) p.max_bytes
    else if ltb p.max_deltas (p.pending_deltas + count)
    then saturated p deltas (p.pending_deltas + count) p.max_deltas
    else (
      record p {
        waiting = p.waiting + 1;
        pending_bytes = p.pending_bytes + size;
        pending_deltas = p.pending_deltas + count;
      },
      none,
    )

-- `release`; the child `Budget` shows that nothing goes below zero.
unfoldable pub release : Pending → ℕ → ℕ → Pending
release p size count = record p {
  waiting = p.waiting - 1;
  pending_bytes = p.pending_bytes - size;
  pending_deltas = p.pending_deltas - count;
}

module _ (fl : Float64) where
  -- The size of a submission is what `estimateDeltaBytes` made of its deltas.
  pub record Submission : Type 0 where
    pub deltas : DeltaMap fl
    pub bytes : ℕ

  pub record Writer : Type 0 where
    pub engine : Engine fl
    pub tracker : Tracker fl
    pub pending : Pending
    pub commits : ℕ
    pub commit_errors : ℕ
    pub commit_streak : ℕ
    pub delta_rows : ℕ

  -- The answer of `CommitGroup`: none, or an error by its number.
  abbrev pub Store : Type 0
  Store = DeltaMap fl → List (DirtyBaseline fl) → Option ℕ

  pub record CommitResult : Type 0 where
    pub revision : ℕ
    pub error : Option ℕ

  -- The submissions merged into one map, each entry as it joins a shard.
  unfoldable pub merge_batch : DeltaMap fl → List Submission → DeltaMap fl
  merge_batch merged [] = merged
  merge_batch merged (s ∷ batch) = merge_batch (apply_resolved fl s.deltas merged) batch

  -- `finish`, where each waiter gets the same result.
  unfoldable pub finish : Pending → List Submission → Pending
  finish p [] = p
  finish p (s ∷ batch) = finish (release p s.bytes (size s.deltas)) batch

  -- The end of `commit`, on the plan, the drained rows and the answer of the store.
  unfoldable pub settle :
      Writer
      → List Submission
      → Engine fl × Plan fl
      → Tracker fl × List (DirtyBaseline fl)
      → Option ℕ
      → Writer × CommitResult
  settle w batch (planned, plan) (drained, rows) (some err) =
      let e = rollback_admission fl planned plan in
      (
        record w {
          engine = e;
          tracker = rollback fl rows drained;
          pending = finish w.pending batch;
          commits = w.commits + 1;
          commit_errors = w.commit_errors + 1;
          commit_streak = w.commit_streak + 1;
        },
        record { revision = e.revision; error = some err },
      )
  settle w batch (planned, plan) (drained, rows) none =
      let e = commit_admission fl planned plan in
      (
        record w {
          engine = e;
          tracker = drained;
          pending = finish w.pending batch;
          commits = w.commits + 1;
          commit_streak = 0;
          delta_rows = w.delta_rows + size plan.resolved;
        },
        record { revision = e.revision; error = none },
      )

  unfoldable pub commit : Store → ℕ → ℕ → Writer → List Submission → Writer × CommitResult
  commit store now later w batch =
      let plan = plan_admission fl now later w.engine (merge_batch [] batch) in
      let drained = drain_dirty fl w.tracker in
      settle w batch plan drained (store plan.1.resolved drained.1)
