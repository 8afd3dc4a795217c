-- ===== src/Aggregate/Engine/Planning.antt =====
-- engine.go: `PlanAdmission`, `CommitAdmission` and `RollbackAdmission`: what a plan reserves is
-- settled by either of the two.
use otelcontext.Base.{
  ℕ, ◌≡◌, refl, ap, Bool, true, false, ◌||◌, [], ◌∷◌, arith, ◌==◌, Float64, ℕ_discrete, Bool-cases,
  inl, inr,
}
use otelcontext.Base.Map.{Map, get, put, has, size}
use otelcontext.Base.Map.Laws.{get-put, get-delete}
use otelcontext.Aggregate.Delta.{AggregateDelta}
use otelcontext.Aggregate.Limiter.{Limiter, SeriesWindowKey, window_key_discrete, window_key, admit}
use otelcontext.Aggregate.Limiter.Admitting.Presence.{
  same, path_of_same, holds, has-put, admit-Resolved,
}
use otelcontext.Aggregate.Engine.{
  Engine, Plan, DeltaMap, no_plan, resolve, plan_entry, plan_entries, plan_admission, rollover,
  past_lateness, applied, collapsed, apply_resolved, own_windows, commit_admission,
  rollback_admission, mark_finalized, hand_over, window_entries,
}
use otelcontext.Aggregate.Engine.Occupancy.{
  member, same_window, member-window_entries, has-without_window, holds-release_all,
}
use otelcontext.Aggregate.Engine.HandOver.{stored, owned, Settled, rollover-Settled}

module _ (fl : Float64) where
  abbrev planned : Plan fl → SeriesWindowKey → Bool
  planned p k = has window_key_discrete k p.resolved

  -- While a plan is under way the limiter also holds what the plan reserved: series that are not
  -- in the shards and that the plan is about to put there.
  abbrev pub UnderWay : Engine fl × Plan fl → Type 0
  UnderWay (e, p) =
      (k : SeriesWindowKey)
      → (holds fl e.limiter k ≡ stored fl e k || member k p.reserved)
        × (member k p.reserved ≡ true → stored fl e k ≡ false)
        × (member k p.reserved ≡ true → planned p k ≡ true)
        × (planned p k ≡ true → holds fl e.limiter k ≡ true)
        × (stored fl e k ≡ true → owned fl e k.window_start ≡ true)

  held_same :
      (l : Limiter fl) (j k : SeriesWindowKey) → same j k ≡ true → holds fl l j ≡ holds fl l k
  held_same l j k h = ap (holds fl l) (path_of_same j k h)

  resolve-UnderWay :
      (e : Engine fl) (p : Plan fl) (k : SeriesWindowKey) (d : AggregateDelta fl)
      → UnderWay (e, p)
      → UnderWay (resolve fl (e, p) k d)
  unfolding resolve member
  resolve-UnderWay e p j d h k =
      let r = admit fl e.limiter j.key j.window_start in
      let t = window_key fl r.1.key j.window_start in
      let (x, y, z) = admit-Resolved fl e.limiter j.key j.window_start k in
      let before = held_same e.limiter t k in
      let after = held_same r.0 t k in
      let (a, b, c, q, o) = h k in
      let w = has-put k t (collapsed fl (get window_key_discrete t p.resolved) d) p.resolved in
      (ground arith, ground arith, ground arith, ground arith, o)

  plan_entry-UnderWay :
      (now : ℕ) (k : SeriesWindowKey) (d : AggregateDelta fl) (e : Engine fl) (p : Plan fl)
      → UnderWay (e, p)
      → UnderWay (plan_entry fl now k d (e, p))
  unfolding plan_entry
  plan_entry-UnderWay now k d e p h = elim (Bool-cases (past_lateness now k.window_start)) [
    | inl q ↦ rw q h
    | inr q ↦ rw q (resolve-UnderWay e p k d h)
  ]

  plan_entries-UnderWay :
      (now : ℕ) (m : DeltaMap fl) (s : Engine fl × Plan fl)
      → UnderWay s
      → UnderWay (plan_entries fl now m s)
  unfolding plan_entries
  plan_entries-UnderWay now [] s h = h
  plan_entries-UnderWay now ((k, d) ∷ m) (e, p) h =
      plan_entries-UnderWay now m (plan_entry fl now k d (e, p)) (plan_entry-UnderWay now k d e p h)

  pub no_plan-UnderWay : (e : Engine fl) → Settled fl e → UnderWay (e, no_plan fl)
  unfolding member get
  no_plan-UnderWay e h k =
      (ground (arith, h k), λ q. absurd (cc), λ q. absurd (cc), λ q. absurd (cc), (h k).1)

  pub plan_admission-UnderWay :
      (now later : ℕ) (e : Engine fl) (m : DeltaMap fl)
      → Settled fl e
      → UnderWay (plan_admission fl now later e m)
  unfolding plan_admission
  plan_admission-UnderWay now later e [] h = no_plan-UnderWay e h
  plan_admission-UnderWay now later e (entry ∷ m) h =
      plan_entries-UnderWay later (entry ∷ m) (rollover fl now e, no_plan fl)
        (no_plan-UnderWay (rollover fl now e) (rollover-Settled fl now e h))

  has-apply_resolved :
      (m shards : DeltaMap fl) (k : SeriesWindowKey)
      → has window_key_discrete k (apply_resolved fl m shards)
        ≡ has window_key_discrete k shards || has window_key_discrete k m
  unfolding apply_resolved get
  has-apply_resolved [] shards k = ground arith
  has-apply_resolved ((j, d) ∷ m) shards k =
      let v = applied fl (get window_key_discrete j shards) d in
      ground
        (arith, has-apply_resolved m (put window_key_discrete j v shards) k, has-put k j v shards)

  own_windows-keeps :
      (m : DeltaMap fl) (mutable : Map ℕ (Unit {0})) (start : ℕ)
      → has ℕ_discrete start mutable ≡ true
      → has ℕ_discrete start (own_windows fl m mutable) ≡ true
  unfolding own_windows
  own_windows-keeps [] mutable start h = h
  own_windows-keeps ((j, d) ∷ m) mutable start h =
      own_windows-keeps m _ start
        (ground (arith, get-put ℕ_discrete start j.window_start tt mutable))

  owned_of_planned :
      (m : DeltaMap fl) (mutable : Map ℕ (Unit {0})) (k : SeriesWindowKey)
      → has window_key_discrete k m ≡ true
      → has ℕ_discrete k.window_start (own_windows fl m mutable) ≡ true
  unfolding own_windows get
  owned_of_planned [] mutable k h = absurd (cc)
  owned_of_planned ((j, d) ∷ m) mutable k h =
      let window = get-put ℕ_discrete k.window_start j.window_start tt mutable in
      let keep = own_windows-keeps m (put ℕ_discrete j.window_start tt mutable) k.window_start in
      ground
        (arith, owned_of_planned m (put ℕ_discrete j.window_start tt mutable) k, same_window j k)

  none_planned :
      (m : DeltaMap fl) (k : SeriesWindowKey)
      → (size m == 0) ≡ true
      → has window_key_discrete k m ≡ false
  unfolding get size
  none_planned [] k h = refl
  none_planned (entry ∷ m) k h = ground arith

  -- What a commit does: the planned series join the shards and memory owns their windows.
  pub commit-Joined :
      (e : Engine fl) (p : Plan fl) (k : SeriesWindowKey)
      → let e' = commit_admission fl e p in
        (stored fl e' k ≡ stored fl e k || planned p k)
        × (planned p k ≡ true → owned fl e' k.window_start ≡ true)
        × (owned fl e k.window_start ≡ true → owned fl e' k.window_start ≡ true)
        × (e'.limiter ≡ e.limiter)
        × (e'.watermark ≡ e.watermark)
  unfolding commit_admission
  commit-Joined e p k = elim (Bool-cases (size p.resolved == 0)) [
    | inl z ↦ rw z (
        let n = none_planned p.resolved k z in (ground arith, λ h. absurd (cc), λ h. h, refl, refl))
    | inr z ↦ rw z (
      has-apply_resolved p.resolved e.shards k,
      owned_of_planned p.resolved e.mutable k,
      own_windows-keeps p.resolved e.mutable k.window_start,
      refl,
      refl,
    )
  ]

  pub commit-Settled :
      (e : Engine fl) (p : Plan fl) → UnderWay (e, p) → Settled fl (commit_admission fl e p)
  commit-Settled e p h k =
      let (a, b, c, q, o) = h k in
      let (joined, owns, keeps, same_limiter, _) = commit-Joined e p k in
      (rw same_limiter (ground arith), ground arith)

  pub rollback-Settled :
      (e : Engine fl) (p : Plan fl) → UnderWay (e, p) → Settled fl (rollback_admission fl e p)
  unfolding rollback_admission
  rollback-Settled e p h k =
      let (a, b, c, q, o) = h k in
      (ground (arith, holds-release_all fl e.limiter p.reserved k, a, b), o)

  -- The finalizer may hand over any window that the plan does not touch.
  abbrev pub Untouched : Plan fl → ℕ → Type 0
  Untouched p start = (k : SeriesWindowKey) → planned p k ≡ true → (k.window_start == start) ≡ false

  pub mark_finalized-UnderWay :
      (e : Engine fl) (p : Plan fl) (start : ℕ)
      → Untouched p start
      → UnderWay (e, p)
      → UnderWay (mark_finalized fl e start, p)
  unfolding mark_finalized hand_over
  mark_finalized-UnderWay e p start u h k =
      let (a, b, c, q, o) = h k in
      let x = holds-release_all fl e.limiter (window_entries start e.shards) k in
      let y = member-window_entries k start e.shards in
      let z = has-without_window k start e.shards in
      let w = get-delete ℕ_discrete k.window_start start e.mutable in
      let v = u k in (ground arith, ground arith, c, ground arith, ground arith)

  pub mark_finalized-Settled :
      (e : Engine fl) (start : ℕ) → Settled fl e → Settled fl (mark_finalized fl e start)
  unfolding member get
  mark_finalized-Settled e start h k =
      let u = no_plan-UnderWay e h in
      let (a, _, _, _, o) = mark_finalized-UnderWay e (no_plan fl) start (λ j q. absurd (cc)) u k in
      (ground arith, o)
