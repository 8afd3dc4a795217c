-- ===== src/Base/Map.antt =====
-- Go's `map[K]V` as an association list. The order of the entries stands for the iteration order,
-- which Go leaves open. `put` writes in place or at the end, `delete` drops every entry of a key.
pub mod Laws
pub mod Tally
pub mod Weigh
pub mod Counters
use Prim.Native.Nat.{ℕ, suc, ◌+◌, ◌-◌}
use mathlib.Core.Logic.{ite}
use mathlib.Core.Bool.{Bool}
use mathlib.Core.List.{List, [], ◌∷◌}
use mathlib.Core.Option.{Option, none, some}
use otelcontext.Base.Tests.{is_some, ◌==◌, if◌then◌else◌}

abbrev pub Map : Type 0 → Type 0 → Type 0
Map K V = List (K × V)

module _ {K V : Type 0} where
  unfoldable pub size : Map K V → ℕ
  size [] = 0
  size (e ∷ m) = suc (size m)

module _ {K V : Type 0} (d : Discrete K) where
  unfoldable pub get : K → Map K V → Option V
  get k [] = none
  get k ((j, v) ∷ m) = ite (d j k) (some v) (get k m)

  unfoldable pub put : K → V → Map K V → Map K V
  put k v [] = (k, v) ∷ []
  put k v ((j, w) ∷ m) = ite (d j k) ((k, v) ∷ m) ((j, w) ∷ put k v m)

  unfoldable pub delete : K → Map K V → Map K V
  delete k [] = []
  delete k ((j, w) ∷ m) = ite (d j k) (delete k m) ((j, w) ∷ delete k m)

  -- `_, ok := m[k]`
  abbrev pub has : K → Map K V → Bool
  has k m = is_some (get k m)

abbrev pub count_of : Option ℕ → ℕ
count_of none = 0
count_of (some n) = n

module _ {K : Type 0} (d : Discrete K) where
  -- `m[k]` of a map of counters: 0 for a missing key.
  abbrev pub at : K → Map K ℕ → ℕ
  at k m = count_of (get d k m)

  -- `m[k]++`
  unfoldable pub incr : K → Map K ℕ → Map K ℕ
  incr k m = put d k (at k m + 1) m

  -- `m[k]--`; the models show that the counter is positive where this runs.
  unfoldable pub decr : K → Map K ℕ → Map K ℕ
  decr k m = put d k (at k m - 1) m

  -- `if m[k] <= 0 { delete(m, k) }`
  unfoldable pub drop_empty : K → Map K ℕ → Map K ℕ
  drop_empty k m = if at k m == 0 then delete d k m else m
