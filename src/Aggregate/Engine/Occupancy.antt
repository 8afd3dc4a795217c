-- ===== src/Aggregate/Engine/Occupancy.antt =====
-- engine.go: which series the limiter holds as present, and which the shards hold.
use otelcontext.Base.{
  ℕ, ◌≡◌, refl, ap, Bool, true, false, not, ◌&&◌, ◌||◌, List, [], ◌∷◌, ◌++◌, arith, ◌==◌, Float64,
}
use otelcontext.Base.Map.{Map, get, has}
use otelcontext.Aggregate.Limiter.{Limiter, SeriesWindowKey, window_key_discrete, release}
use otelcontext.Aggregate.Limiter.Admitting.Presence.{same, path_of_same, holds, holds-release}
use otelcontext.Aggregate.Engine.{release_all, window_entries, without_window}

unfoldable pub member : SeriesWindowKey → List SeriesWindowKey → Bool
member k [] = false
member k (j ∷ js) = same j k || member k js

pub member-append :
    (k : SeriesWindowKey) (xs ys : List SeriesWindowKey)
    → member k (xs ++ ys) ≡ member k xs || member k ys
unfolding member
member-append k [] ys = refl
member-append k (x ∷ xs) ys = ground (arith, member-append k xs ys)

pub same_window : (j k : SeriesWindowKey) → same j k ≡ true → j.window_start ≡ k.window_start
same_window j k h = ap SeriesWindowKey.window_start (path_of_same j k h)

module _ {V : Type 0} where
  -- The series of a window are listed, and gone without it.
  pub member-window_entries :
      (k : SeriesWindowKey) (start : ℕ) (m : Map SeriesWindowKey V)
      → member k (window_entries start m) ≡ has window_key_discrete k m && (k.window_start == start)
  unfolding member window_entries get
  member-window_entries k start [] = refl
  member-window_entries k start ((j, v) ∷ m) =
      ground (arith, member-window_entries k start m, same_window j k)

  pub has-without_window :
      (k : SeriesWindowKey) (start : ℕ) (m : Map SeriesWindowKey V)
      → has window_key_discrete k (without_window start m)
        ≡ has window_key_discrete k m && not (k.window_start == start)
  unfolding without_window get
  has-without_window k start [] = refl
  has-without_window k start ((j, v) ∷ m) =
      ground (arith, has-without_window k start m, same_window j k)

module _ (fl : Float64) where
  pub holds-release_all :
      (l : Limiter fl) (ks : List SeriesWindowKey) (k : SeriesWindowKey)
      → holds fl (release_all fl l ks) k ≡ holds fl l k && not (member k ks)
  unfolding release_all member
  holds-release_all l [] k = ground arith
  holds-release_all l (j ∷ ks) k =
      ground
        (arith, holds-release_all (release fl l j.key j.window_start) ks k, holds-release fl l j k)
