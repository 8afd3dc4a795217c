-- ===== src/Base/Map/Tally.antt =====
-- How many entries of a map pass a test, and how `put` and `delete` move that number.
use otelcontext.Base.Tests.{bit}
use otelcontext.Base.Map.{Map, get, put, delete}
use otelcontext.Base.Map.Laws.{Distinct, delete_missing}
use Prim.Native.Nat.{ℕ, ◌+◌}
use mathlib.Core.Path.{◌≡◌, refl}
use mathlib.Core.Logic.{◌≢◌}
use mathlib.Core.Bool.{Bool}
use mathlib.Core.List.{[], ◌∷◌}
use mathlib.Core.Option.{none, some}
use native.Mathlib.Omega.{arith}

module _ {K V : Type 0} where
  unfoldable pub tally : (K → V → Bool) → Map K V → ℕ
  tally p [] = 0
  tally p ((k, v) ∷ m) = bit (p k v) + tally p m

module _ {K V : Type 0} (d : Discrete K) where
  pub tally-put_new :
      (p : K → V → Bool) (k : K) (v : V) (m : Map K V)
      → get d k m ≡ none
      → tally p (put d k v m) ≡ tally p m + bit (p k v)
  unfolding get put tally
  tally-put_new p k v [] h = omega arith
  tally-put_new p k v ((i, w) ∷ m) h = ground (arith, tally-put_new p k v m)

  pub tally-put_old :
      (p : K → V → Bool) (k : K) (v w : V) (m : Map K V)
      → get d k m ≡ some w
      → tally p (put d k v m) + bit (p k w) ≡ tally p m + bit (p k v)
  unfolding get put tally
  tally-put_old p k v w [] h = absurd (cc)
  tally-put_old p k v w ((i, u) ∷ m) h = ground (arith, tally-put_old p k v w m)

  pub tally-delete :
      (p : K → V → Bool) (k : K) (w : V) (m : Map K V)
      → Distinct d m
      → get d k m ≡ some w
      → tally p (delete d k m) + bit (p k w) ≡ tally p m
  unfolding get delete tally
  tally-delete p k w [] s h = absurd (cc)
  tally-delete p k w ((i, u) ∷ m) s h =
      ground (arith, tally-delete p k w m s.1, delete_missing d k m)

  -- Two tests that agree on every key but `k` count the same in a map without `k`.
  pub tally_congr :
      (p q : K → V → Bool) (k : K) (m : Map K V)
      → ((j : K) (v : V) → j ≢ k → p j v ≡ q j v)
      → get d k m ≡ none
      → tally p m ≡ tally q m
  unfolding get tally
  tally_congr p q k [] e h = refl
  tally_congr p q k ((i, u) ∷ m) e h = ground (arith, tally_congr p q k m e, e i u)
