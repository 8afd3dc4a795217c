-- ===== src/Base/Map/Counters.antt =====
-- Maps of counters: what `m[j]` reads after `m[k]++`, `m[k]--` and the removal of an empty counter.
use otelcontext.Base.Tests.{bit, dec_bool}
use otelcontext.Base.Map.{Map, at, incr, decr, drop_empty}
use otelcontext.Base.Map.Laws.{get-put, get-delete}
use Prim.Native.Nat.{ℕ, ◌+◌, ◌-◌}
use mathlib.Core.Path.{◌≡◌}
use native.Mathlib.Omega.{arith}

module _ {K : Type 0} (d : Discrete K) where
  pub at-incr : (j k : K) (m : Map K ℕ) → at d j (incr d k m) ≡ at d j m + bit (dec_bool (d k j))
  unfolding incr
  at-incr j k m = ground (arith, get-put d j k (at d k m + 1) m)

  pub at-decr : (j k : K) (m : Map K ℕ) → at d j (decr d k m) ≡ at d j m - bit (dec_bool (d k j))
  unfolding decr
  at-decr j k m = ground (arith, get-put d j k (at d k m - 1) m)

  pub at-drop_empty : (j k : K) (m : Map K ℕ) → at d j (drop_empty d k m) ≡ at d j m
  unfolding drop_empty
  at-drop_empty j k m = ground (arith, get-delete d j k m)
