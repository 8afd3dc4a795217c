-- ===== src/Aggregate/Writer/Tests.antt =====
-- writer.go: a store that accepts and one that fails, and the theorems at concrete inputs.
use otelcontext.Base.{◌+◌, ◌≡◌, refl, none, some, List, [], ◌∷◌, pos}
use otelcontext.Base.Samples.{whole_float}
use otelcontext.Aggregate.Tracker.{new_tracker}
use otelcontext.Aggregate.Engine.{new_engine}
use otelcontext.Aggregate.Engine.Samples.{small, span, points, fresh, batch}
use otelcontext.Aggregate.Engine.HandOver.{Settled}
use otelcontext.Aggregate.Engine.History.{new_engine-Settled}
use otelcontext.Aggregate.Engine.Conservation.{counted, late}
use otelcontext.Aggregate.Writer.{
  Pending, Writer, Submission, Store, merge_batch, commit, settle, admit, saturated, release,
}
use otelcontext.Aggregate.Writer.Budget.{
  Limits, nothing_pending, Kept, comes, goes, go, stop, entered, pending_bounded,
}
use otelcontext.Aggregate.Writer.Settling.{
  submitted, planning, commit_accounts, failed_commit_undone,
}

-- Two waiters at most: the third is refused.
abbrev two_waiters : Limits
two_waiters = record { waiters = 2; bytes = 100; deltas = 10 }

abbrev after_three : Pending
after_three = record (nothing_pending two_waiters) {
  waiting = 1;
  pending_bytes = 40;
  pending_deltas = 2;
  rejections = 1;
}

pending_bounded_example : Kept two_waiters (after_three, (40, 2) ∷ [])
unfolding admit release entered saturated
pending_bounded_example =
    pending_bounded two_waiters after_three ((40, 2) ∷ [])
      (go (comes 30 1) (go (comes 40 2) (go (comes 10 1) (go (goes ((40, 2) ∷ []) 30 1 []) stop))))

abbrev writer : Writer whole_float
writer = record {
  engine = fresh;
  tracker = new_tracker whole_float (record {
    max_producers_per_series = pos 2;
    max_baselines = pos 10;
    gap_threshold = pos 600;
  });
  pending = nothing_pending two_waiters;
  commits = 0;
  commit_errors = 0;
  commit_streak = 0;
  delta_rows = 0;
}

abbrev submissions : List (Submission whole_float)
submissions =
    record { deltas = batch; bytes = 60 }
    ∷ record { deltas = (span 5, points 1) ∷ []; bytes = 20 }
    ∷ []

abbrev accepting : Store whole_float
accepting deltas rows = none

abbrev failing : Store whole_float
failing deltas rows = some 13

abbrev settled : Settled whole_float fresh
settled = new_engine-Settled whole_float small (λ t s. 99) (pos 1)

commit_accounts_example :
    let e = (commit whole_float accepting 400 400 writer submissions).0.engine in
    Settled whole_float e
    × (counted whole_float e.shards + late whole_float 400 (merge_batch whole_float [] submissions)
        ≡ counted whole_float (planning whole_float 400 400 writer submissions).0.shards
          + submitted whole_float submissions)
unfolding commit settle
commit_accounts_example =
    commit_accounts whole_float accepting 400 400 writer submissions settled refl

failed_commit_undone_example :
    let r = commit whole_float failing 400 400 writer submissions in
    Settled whole_float r.0.engine
    × (r.0.engine.shards ≡ (planning whole_float 400 400 writer submissions).0.shards)
    × (r.1.revision ≡ 0)
unfolding commit settle new_engine
failed_commit_undone_example =
    failed_commit_undone whole_float failing 400 400 writer submissions 13 settled refl
