-- ===== src/Aggregate/Engine/HandOver.antt =====
-- engine.go: `Rollover` and `MarkFinalized`: what leaves the shards leaves the limiter with it.
use otelcontext.Base.{
  ℕ, ◌≡◌, refl, Bool, true, false, not, ◌&&◌, ◌||◌, List, [], ◌∷◌, arith, ◌==◌, Float64, ℕ_discrete,
}
use otelcontext.Base.Map.{has}
use otelcontext.Base.Map.Laws.{get-delete}
use otelcontext.Aggregate.Limiter.{SeriesWindowKey, window_key_discrete}
use otelcontext.Aggregate.Limiter.Admitting.Presence.{holds}
use otelcontext.Aggregate.Engine.{
  Engine, release_all, window_entries, hand_over, force_out, rollover, close_due, over_cap_closed,
}
use otelcontext.Aggregate.Engine.Occupancy.{
  member, member-append, member-window_entries, has-without_window, holds-release_all,
}

unfoldable pub is_start : ℕ → List ℕ → Bool
is_start n [] = false
is_start n (m ∷ ms) = n == m || is_start n ms

module _ (fl : Float64) where
  -- The shards hold the series.
  abbrev pub stored : Engine fl → SeriesWindowKey → Bool
  stored e k = has window_key_discrete k e.shards

  -- Memory owns the window.
  abbrev pub owned : Engine fl → ℕ → Bool
  owned e start = has ℕ_discrete start e.mutable

  -- The windows that are forced out leave the shards and the mutable set, and nothing else does.
  abbrev Forced : Engine fl → List ℕ → SeriesWindowKey → Engine fl × List SeriesWindowKey → Type 0
  Forced e starts k (e', ks) =
      (stored e' k ≡ stored e k && not (is_start k.window_start starts))
      × (member k ks ≡ stored e k && is_start k.window_start starts)
      × (owned e' k.window_start ≡ owned e k.window_start && not (is_start k.window_start starts))
      × (e'.limiter ≡ e.limiter)

  force_out-Forced :
      (e : Engine fl) (starts : List ℕ) (k : SeriesWindowKey)
      → Forced e starts k (force_out fl starts e)
  unfolding force_out hand_over is_start member
  force_out-Forced e [] k = (ground arith, ground arith, ground arith, refl)
  force_out-Forced e (start ∷ starts) k =
      let ih = force_out-Forced (hand_over fl e start) starts k in
      (
        ground (arith, has-without_window k start e.shards),
        ground (
          arith,
          has-without_window k start e.shards,
          member-window_entries k start e.shards,
          member-append k (window_entries start e.shards)
              (force_out fl starts (hand_over fl e start)).1,
        ),
        ground (arith, get-delete ℕ_discrete k.window_start start e.mutable),
        ih.3,
      )

  -- Between two plans the limiter holds what the shards hold, and memory owns its windows.
  abbrev pub Settled : Engine fl → Type 0
  Settled e =
      (k : SeriesWindowKey)
      → (holds fl e.limiter k ≡ stored e k) × (stored e k ≡ true → owned e k.window_start ≡ true)

  forced-Settled :
      (e : Engine fl) (starts : List ℕ)
      → Settled e
      → let r = force_out fl starts e in
        Settled (record r.0 { limiter = release_all fl r.0.limiter r.1 })
  forced-Settled e starts h k =
      let f = force_out-Forced e starts k in
      let r = force_out fl starts e in
      rw f.3 (
        ground (arith, holds-release_all fl e.limiter r.1 k, f.0, f.1, (h k).0),
        ground (arith, f.0, f.2, (h k).1),
      )

  pub rollover-Settled : (now : ℕ) (e : Engine fl) → Settled e → Settled (rollover fl now e)
  unfolding rollover
  rollover-Settled now e h =
      let closed = close_due now e.mutable e.closed in
      forced-Settled (record e { closed = closed }) (over_cap_closed e.max_closed_windows closed) h
