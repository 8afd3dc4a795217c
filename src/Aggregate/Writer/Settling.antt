-- ===== src/Aggregate/Writer/Settling.antt =====
-- writer.go: what a group commit leaves in the engine, whatever the store answers.
use otelcontext.Base.{
  ℕ, ◌+◌, ◌≡◌, refl, sym, ◌∙◌, Option, none, some, Option-cases, List, [], ◌∷◌, arith, Float64,
  Bool-cases, inl, inr,
}
use otelcontext.Base.Map.Weigh.{weigh}
use otelcontext.Aggregate.Cumulative.{drain_dirty}
use otelcontext.Aggregate.Engine.{
  Engine, Plan, DeltaMap, apply_resolved, no_plan, plan_admission, plan_entries, plan_entry,
  past_lateness, resolve, rollover, force_out, hand_over, close_due, over_cap_closed,
  rollback_admission,
}
use otelcontext.Aggregate.Engine.HandOver.{Settled}
use otelcontext.Aggregate.Engine.Planning.{
  plan_admission-UnderWay, commit-Settled, rollback-Settled,
}
use otelcontext.Aggregate.Engine.Conservation.{
  counted, late, counted-apply_resolved, plan_conserves,
}
use otelcontext.Aggregate.Writer.{Writer, Submission, Store, merge_batch, settle, commit}

module _ (fl : Float64) where
  -- The points of the submissions of a batch.
  unfoldable pub submitted : List (Submission fl) → ℕ
  submitted [] = 0
  submitted (s ∷ batch) = counted fl s.deltas + submitted batch

  counted-merge_batch :
      (merged : DeltaMap fl) (batch : List (Submission fl))
      → counted fl (merge_batch fl merged batch) ≡ counted fl merged + submitted batch
  unfolding merge_batch submitted
  counted-merge_batch merged [] = omega arith
  counted-merge_batch merged (s ∷ batch) = omega (
    arith,
    counted-merge_batch (apply_resolved fl s.deltas merged) batch,
    counted-apply_resolved fl s.deltas merged,
  )

  force_out-revision :
      (starts : List ℕ) (e : Engine fl) → (force_out fl starts e).0.revision ≡ e.revision
  unfolding force_out hand_over
  force_out-revision [] e = refl
  force_out-revision (start ∷ starts) e = force_out-revision starts (hand_over fl e start)

  plan_entries-revision :
      (now : ℕ) (m : DeltaMap fl) (s : Engine fl × Plan fl)
      → (plan_entries fl now m s).0.revision ≡ s.0.revision
  unfolding plan_entries plan_entry resolve
  plan_entries-revision now [] s = refl
  plan_entries-revision now ((k, d) ∷ m) (e, p) =
      plan_entries-revision now m (plan_entry fl now k d (e, p))
      ∙ elim (Bool-cases (past_lateness now k.window_start)) [
        | inl q ↦ rw q refl
        | inr q ↦ rw q refl
      ]

  plan-revision :
      (now later : ℕ) (e : Engine fl) (m : DeltaMap fl)
      → (plan_admission fl now later e m).0.revision ≡ e.revision
  unfolding plan_admission rollover
  plan-revision now later e [] = refl
  plan-revision now later e (x ∷ m) =
      plan_entries-revision later (x ∷ m) (rollover fl now e, no_plan fl)
      ∙ force_out-revision (over_cap_closed e.max_closed_windows (close_due now e.mutable e.closed))
          (record e { closed = close_due now e.mutable e.closed })

  -- The plan that `commit` makes.
  abbrev pub planning : ℕ → ℕ → Writer fl → List (Submission fl) → Engine fl × Plan fl
  planning now later w batch = plan_admission fl now later w.engine (merge_batch fl [] batch)

  module _ (store : Store fl) (now later : ℕ) (w : Writer fl) (batch : List (Submission fl)) where
    abbrev planned : Engine fl × Plan fl
    planned = planning now later w batch

    answer : Option ℕ
    answer = store planned.1.resolved (drain_dirty fl w.tracker).1

    commit-error : (commit fl store now later w batch).1.error ≡ answer
    unfolding commit settle answer
    commit-error = elim (Option-cases answer) [ inl q ↦ rw q refl | inr (err, q) ↦ rw q refl ]

    -- Where the limiter holds what the shards hold, in windows that memory owns, a commit that the
    -- store accepts keeps that so, and every point that the submissions count is added to the
    -- shards, but for those of windows past their lateness.
    pub commit_accounts :
        Settled fl w.engine
        → (commit fl store now later w batch).1.error ≡ none
        → let e = (commit fl store now later w batch).0.engine in
          Settled fl e
          × (counted fl e.shards + late fl later (merge_batch fl [] batch)
              ≡ counted fl (planning now later w batch).0.shards + submitted batch)
    unfolding commit settle answer weigh
    commit_accounts h ok =
        let q = sym commit-error ∙ ok in
        let u = plan_admission-UnderWay fl now later w.engine (merge_batch fl [] batch) h in
        rw q (
          commit-Settled fl planned.0 planned.1 u,
          omega (
            arith,
            plan_conserves fl now later w.engine (merge_batch fl [] batch),
            counted-merge_batch [] batch,
          ),
        )

    -- Where the limiter holds what the shards hold, in windows that memory owns, a commit that the
    -- store refuses leaves the shards as the plan found them after its rollover and reports the
    -- revision from before; the limiter holds what the shards hold, so that what the plan reserved
    -- is free again.
    pub failed_commit_undone :
        (err : ℕ)
        → Settled fl w.engine
        → (commit fl store now later w batch).1.error ≡ some err
        → let r = commit fl store now later w batch in
          Settled fl r.0.engine
          × (r.0.engine.shards ≡ (planning now later w batch).0.shards)
          × (r.1.revision ≡ w.engine.revision)
    unfolding commit settle answer rollback_admission
    failed_commit_undone err h bad =
        let q = sym commit-error ∙ bad in
        let u = plan_admission-UnderWay fl now later w.engine (merge_batch fl [] batch) h in
        rw q (
          rollback-Settled fl planned.0 planned.1 u,
          refl,
          plan-revision now later w.engine (merge_batch fl [] batch),
        )
