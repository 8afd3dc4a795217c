-- ===== src/Aggregate/Engine/LateCommit.antt =====
-- engine.go: a commit whose plan was made before the finalizer handed its window over.
use otelcontext.Base.{◌≡◌, ◌≤◌, true, false, arith, Float64}
use otelcontext.Base.Map.{has}
use otelcontext.Aggregate.Limiter.{SeriesWindowKey, window_key_discrete}
use otelcontext.Aggregate.Limiter.Admitting.Presence.{holds}
use otelcontext.Aggregate.Engine.{
  Engine, Plan, commit_admission, mark_finalized, hand_over, window_entries,
}
use otelcontext.Aggregate.Engine.Occupancy.{holds-release_all, member-window_entries}
use otelcontext.Aggregate.Engine.HandOver.{stored, owned}
use otelcontext.Aggregate.Engine.Planning.{commit-Joined}

module _ (fl : Float64) where
  -- Where the finalizer hands over a window that a plan under way touches, the commit takes the
  -- window back into memory although it is not above the watermark, and a series of it that the
  -- shards already held is in them again without being held by the limiter.
  pub late_commit_reopens :
      (e : Engine fl) (p : Plan fl) (k : SeriesWindowKey)
      → stored fl e k ≡ true
      → has window_key_discrete k p.resolved ≡ true
      → let e' = commit_admission fl (mark_finalized fl e k.window_start) p in
        (k.window_start ≤ e'.watermark)
        × (owned fl e' k.window_start ≡ true)
        × (stored fl e' k ≡ true)
        × (holds fl e'.limiter k ≡ false)
  unfolding mark_finalized hand_over
  late_commit_reopens e p k s h =
      let (joined, owns, _, limiter, watermark) =
        commit-Joined fl (mark_finalized fl e k.window_start) p k in
      let released = holds-release_all fl e.limiter (window_entries k.window_start e.shards) k in
      let listed = member-window_entries k k.window_start e.shards in
      (rw watermark (ground arith), owns h, ground arith, rw limiter (ground arith))
