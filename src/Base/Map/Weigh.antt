-- ===== src/Base/Map/Weigh.antt =====
-- The sum of a weight over the entries of a map, and the number of entries, under `put`.
use otelcontext.Base.Map.{Map, get, put, delete, size, incr}
use otelcontext.Base.Map.Laws.{Distinct, delete_missing}
use Prim.Native.Nat.{ℕ, ◌+◌, ◌≤◌}
use mathlib.Core.Path.{◌≡◌}
use mathlib.Core.List.{[], ◌∷◌}
use mathlib.Core.Option.{none, some}
use native.Mathlib.Omega.{arith}

module _ {K V : Type 0} where
  unfoldable pub weigh : (V → ℕ) → Map K V → ℕ
  weigh f [] = 0
  weigh f ((k, v) ∷ m) = f v + weigh f m

module _ {K V : Type 0} (d : Discrete K) where
  pub weigh-put_new :
      (f : V → ℕ) (k : K) (v : V) (m : Map K V)
      → get d k m ≡ none
      → weigh f (put d k v m) ≡ weigh f m + f v
  unfolding get put weigh
  weigh-put_new f k v [] h = omega arith
  weigh-put_new f k v ((i, w) ∷ m) h = ground (arith, weigh-put_new f k v m)

  pub weigh-put_old :
      (f : V → ℕ) (k : K) (v w : V) (m : Map K V)
      → get d k m ≡ some w
      → weigh f (put d k v m) + f w ≡ weigh f m + f v
  unfolding get put weigh
  weigh-put_old f k v w [] h = absurd (cc)
  weigh-put_old f k v w ((i, u) ∷ m) h = ground (arith, weigh-put_old f k v w m)

  pub weigh-put-le :
      (f : V → ℕ) (k : K) (v : V) (m : Map K V) → weigh f (put d k v m) ≤ weigh f m + f v
  unfolding put weigh
  weigh-put-le f k v [] = omega arith
  weigh-put-le f k v ((i, w) ∷ m) = ground (arith, weigh-put-le f k v m)

  pub size-put_new :
      (k : K) (v : V) (m : Map K V) → get d k m ≡ none → size (put d k v m) ≡ size m + 1
  unfolding get put size
  size-put_new k v [] h = omega arith
  size-put_new k v ((i, w) ∷ m) h = ground (arith, size-put_new k v m)

  pub size-put_old :
      (k : K) (v w : V) (m : Map K V) → get d k m ≡ some w → size (put d k v m) ≡ size m
  unfolding get put size
  size-put_old k v w [] h = absurd (cc)
  size-put_old k v w ((i, u) ∷ m) h = ground (arith, size-put_old k v w m)

  pub size-put-le : (k : K) (v : V) (m : Map K V) → size (put d k v m) ≤ size m + 1
  unfolding put size
  size-put-le k v [] = omega arith
  size-put-le k v ((i, w) ∷ m) = ground (arith, size-put-le k v m)

  pub le-size-put : (k : K) (v : V) (m : Map K V) → size m ≤ size (put d k v m)
  unfolding put size
  le-size-put k v [] = omega arith
  le-size-put k v ((i, w) ∷ m) = ground (arith, le-size-put k v m)

  pub put-put : (k : K) (v w : V) (m : Map K V) → put d k v (put d k w m) ≡ put d k v m
  unfolding put
  put-put k v w [] = ground arith
  put-put k v w ((i, u) ∷ m) = ground (arith, put-put k v w m)

module _ {K V : Type 0} (d : Discrete K) where
  pub weigh-delete :
      (f : V → ℕ) (k : K) (v : V) (m : Map K V)
      → Distinct d m
      → get d k m ≡ some v
      → weigh f (delete d k m) + f v ≡ weigh f m
  unfolding get delete weigh
  weigh-delete f k v [] h g = absurd (cc)
  weigh-delete f k v ((i, w) ∷ m) h g =
      ground (arith, weigh-delete f k v m h.1, delete_missing d k m)

  pub size-delete-le : (k : K) (m : Map K V) → size (delete d k m) ≤ size m
  unfolding delete size
  size-delete-le k [] = omega arith
  size-delete-le k ((i, w) ∷ m) = ground (arith, size-delete-le k m)

-- The sum of a map of counters goes up by one with any counter.
pub weigh-incr :
    {K : Type 0} (d : Discrete K) (k : K) (m : Map K ℕ)
    → weigh (λ n. n) (incr d k m) ≡ weigh (λ n. n) m + 1
unfolding get put weigh incr
weigh-incr d k [] = omega arith
weigh-incr d k ((i, n) ∷ m) = ground (arith, weigh-incr d k m)
