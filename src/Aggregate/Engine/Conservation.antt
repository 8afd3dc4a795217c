-- ===== src/Aggregate/Engine/Conservation.antt =====
-- engine.go: no point of a batch is lost between its plan and its commit.
use otelcontext.Base.{
  ℕ, ◌+◌, ◌≡◌, refl, ◌∙◌, true, none, some, Option-cases, Bool-cases, inl, inr, [], ◌∷◌, arith,
  Float64, ◌==◌, Option, if◌then◌else◌,
}
use otelcontext.Base.Map.{get, put, size}
use otelcontext.Base.Map.Weigh.{weigh, weigh-put_new, weigh-put_old}
use otelcontext.Aggregate.Limiter.{window_key_discrete, SeriesWindowKey, admit, window_key}
use otelcontext.Aggregate.Delta.{AggregateDelta, merge, merge_counts}
use otelcontext.Aggregate.Engine.{
  Engine, Plan, DeltaMap, no_plan, collapsed, applied, resolve, past_lateness, plan_entry,
  plan_entries, plan_admission, apply_resolved, commit_admission, rollover,
}

module _ (fl : Float64) where
  abbrev points : AggregateDelta fl → ℕ
  points d = d.counts.count

  -- The points that a map of deltas counts.
  abbrev pub counted : DeltaMap fl → ℕ
  counted = weigh points

  -- The points of a batch that belong to windows past their lateness.
  unfoldable pub late : ℕ → DeltaMap fl → ℕ
  late now [] = 0
  late now ((k, d) ∷ m) =
      let rest = late now m in if past_lateness now k.window_start then points d + rest else rest

  -- A delta that is put with what is there already adds its points.
  counted-put :
      (f : Option (AggregateDelta fl) → AggregateDelta fl → AggregateDelta fl)
      → ((x d : AggregateDelta fl) → points (f (some x) d) ≡ points x + points d)
      → ((d : AggregateDelta fl) → points (f none d) ≡ points d)
      → (k : SeriesWindowKey) (d : AggregateDelta fl) (m : DeltaMap fl)
      → counted (put window_key_discrete k (f (get window_key_discrete k m) d) m)
        ≡ counted m + points d
  counted-put f old new k d m = elim (Option-cases (get window_key_discrete k m)) [
    | inl e ↦ rw e (
        let h = weigh-put_new window_key_discrete points k (f none d) m e in
        let n = new d in omega arith)
    | inr (x, e) ↦ rw e (
        let h = weigh-put_old window_key_discrete points k (f (some x) d) x m e in
        let o = old x d in omega arith)
  ]

  counted-plan_entry :
      (now : ℕ) (k : SeriesWindowKey) (d : AggregateDelta fl) (e : Engine fl) (p : Plan fl)
      → let s = plan_entry fl now k d (e, p) in
        (counted s.1.resolved + (if past_lateness now k.window_start then points d else 0)
          ≡ counted p.resolved + points d)
        × (s.0.shards ≡ e.shards)
  unfolding plan_entry resolve collapsed merge merge_counts
  counted-plan_entry now k d e p = elim (Bool-cases (past_lateness now k.window_start)) [
    | inl q ↦ rw q (refl, refl)
    | inr q ↦ rw q (
        let target = window_key fl (admit fl e.limiter k.key k.window_start).1.key k.window_start in
        let h = counted-put (collapsed fl) (λ x y. omega arith) (λ y. refl) target d p.resolved in
        (omega arith, refl))
  ]

  counted-plan_entries :
      (now : ℕ) (m : DeltaMap fl) (s : Engine fl × Plan fl)
      → (counted (plan_entries fl now m s).1.resolved + late now m
          ≡ counted s.1.resolved + counted m)
        × ((plan_entries fl now m s).0.shards ≡ s.0.shards)
  unfolding plan_entries late weigh
  counted-plan_entries now [] s = (refl, refl)
  counted-plan_entries now ((k, d) ∷ m) (e, p) =
      let ih = counted-plan_entries now m (plan_entry fl now k d (e, p)) in
      let one = counted-plan_entry now k d e p in (ground arith, ih.1 ∙ one.1)

  pub counted-apply_resolved :
      (m shards : DeltaMap fl) → counted (apply_resolved fl m shards) ≡ counted shards + counted m
  unfolding apply_resolved weigh merge merge_counts applied
  counted-apply_resolved [] shards = omega arith
  counted-apply_resolved ((k, d) ∷ m) shards =
      let next =
        put window_key_discrete k (applied fl (get window_key_discrete k shards) d) shards in
      let ih = counted-apply_resolved m next in
      let one = counted-put (applied fl) (λ x y. refl) (λ y. refl) k d shards in omega arith

  counted_nothing : (m : DeltaMap fl) → (size m == 0) ≡ true → counted m ≡ 0
  unfolding size weigh
  counted_nothing [] h = refl
  counted_nothing (x ∷ m) h = ground arith

  counted-commit :
      (e : Engine fl) (p : Plan fl)
      → counted (commit_admission fl e p).shards ≡ counted e.shards + counted p.resolved
  unfolding commit_admission
  counted-commit e p =
      ground (arith, counted_nothing p.resolved, counted-apply_resolved p.resolved e.shards)

  -- Every point of a batch is in the shards after its plan and commit, wherever the limiter routed
  -- its series, but for windows past their lateness; what the shards held stays counted.
  pub plan_conserves :
      (now later : ℕ) (e : Engine fl) (m : DeltaMap fl)
      → let s = plan_admission fl now later e m in
        counted (commit_admission fl s.0 s.1).shards + late later m ≡ counted s.0.shards + counted m
  unfolding plan_admission weigh late
  plan_conserves now later e [] = omega (arith, counted-commit e (no_plan fl))
  plan_conserves now later e (x ∷ m) =
      let s = plan_entries fl later (x ∷ m) (rollover fl now e, no_plan fl) in
      let h = counted-plan_entries later (x ∷ m) (rollover fl now e, no_plan fl) in
      omega (arith, counted-commit s.0 s.1)
