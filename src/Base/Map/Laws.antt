-- ===== src/Base/Map/Laws.antt =====
-- What `get` reads after `put` and `delete`, and that the keys stay distinct.

use otelcontext.Base.Map.{Map, get, put, delete}
use mathlib.Core.Path.{◌≡◌, refl}
use mathlib.Core.Logic.{ite}
use mathlib.Core.List.{[], ◌∷◌}
use mathlib.Core.Option.{none, some}
use native.Mathlib.Omega.{arith}

module _ {K V : Type 0} (d : Discrete K) where
  pub get-put :
      (j k : K) (v : V) (m : Map K V) → get d j (put d k v m) ≡ ite (d k j) (some v) (get d j m)
  unfolding get put
  get-put j k v [] = refl
  get-put j k v ((i, w) ∷ m) = ground (arith, get-put j k v m)

  pub get-delete : (j k : K) (m : Map K V) → get d j (delete d k m) ≡ ite (d k j) none (get d j m)
  unfolding get delete
  get-delete j k [] = ground arith
  get-delete j k ((i, w) ∷ m) = ground (arith, get-delete j k m)

  pub get-put_self : (k : K) (v : V) (m : Map K V) → get d k (put d k v m) ≡ some v
  get-put_self k v m = ground (arith, get-put k k v m)

  pub get-delete_self : (k : K) (m : Map K V) → get d k (delete d k m) ≡ none
  get-delete_self k m = ground (arith, get-delete k k m)

  -- No key stands twice.
  abbrev pub Distinct : Map K V → Type 0
  Distinct [] = Unit {0}
  Distinct ((k, v) ∷ m) = (get d k m ≡ none) × Distinct m

  pub put-Distinct : (k : K) (v : V) (m : Map K V) → Distinct m → Distinct (put d k v m)
  unfolding get put
  put-Distinct k v [] h = (refl, tt)
  put-Distinct k v ((i, w) ∷ m) h = ground (arith, put-Distinct k v m h.1, get-put i k v m)

  pub delete-Distinct : (k : K) (m : Map K V) → Distinct m → Distinct (delete d k m)
  unfolding get delete
  delete-Distinct k [] h = tt
  delete-Distinct k ((i, w) ∷ m) h = ground (arith, delete-Distinct k m h.1, get-delete i k m)

  -- Deleting a key that is not there changes nothing.
  pub delete_missing : (k : K) (m : Map K V) → get d k m ≡ none → delete d k m ≡ m
  unfolding get delete
  delete_missing k [] h = refl
  delete_missing k ((i, w) ∷ m) h = ground (arith, delete_missing k m)

  pub delete-put : (k : K) (v : V) (m : Map K V) → delete d k (put d k v m) ≡ delete d k m
  unfolding put delete
  delete-put k v [] = ground arith
  delete-put k v ((i, w) ∷ m) = ground (arith, delete-put k v m)
