-- ===== src/Aggregate/Limiter/Names.antt =====
-- cardinality.go: the set of names behind the per-service name cap, when a series leaves.
use otelcontext.Base.{
  ℕ, ◌<◌, ◌≡◌, refl, ◌≢◌, true, false, none, arith, Float64, ℕ_discrete, Option-cases, Bool-cases,
  ◌==◌, inl, inr,
}
use otelcontext.Base.Map.{get, has, at, decr, delete, size}
use otelcontext.Base.Map.Laws.{get-delete, get-put_self, get-delete_self}
use otelcontext.Base.Map.Counters.{at-decr}
use otelcontext.Aggregate.Key.{SeriesKey, key_discrete}
use otelcontext.Aggregate.Limiter.{
  Limiter, scope, scope_discrete, unmark, retire, discharge, forget_name, release, is_present,
  names_of,
}

module _ (fl : Float64) (l : Limiter fl) (key : SeriesKey) where
  -- The name is gone from the service's set, whoever else bears it.
  forgotten :
      has ℕ_discrete key.name_id
        (names_of fl (get scope_discrete (scope fl key) (forget_name fl l key)))
      ≡ false
  unfolding forget_name
  forgotten = elim (Option-cases (get scope_discrete (scope fl key) l.names)) [
    | inl e ↦ rw (e, forget_name) (rw e (unfold get in refl))
    | inr (names, e) ↦
        rw (e, forget_name)
          (elim (Bool-cases (size (delete ℕ_discrete key.name_id names) == 0)) [
            | inl z ↦
                rw (z, get-delete_self scope_discrete (scope fl key) l.names) (unfold get in refl)
            | inr z ↦ rw (
              z,
              get-put_self scope_discrete (scope fl key) (delete ℕ_discrete key.name_id names)
                  l.names,
              get-delete_self ℕ_discrete key.name_id names,
            )
          ])
  ]

module _ (fl : Float64) (l : Limiter fl) (key : SeriesKey) (window : ℕ) where
  left : Limiter fl
  left = record (unmark fl l key window) {
    windows = delete key_discrete key (unmark fl l key window).windows;
  }

  release_discharges :
      is_present fl l key window ≡ true
      → at key_discrete key l.windows ≡ 1
      → get key_discrete key l.overflow ≡ none
      → release fl l key window ≡ discharge fl left key
  unfolding release unmark retire left
  release_discharges p one o = ground (arith, at-decr key_discrete key key l.windows)

  -- The bug: when a budgeted series leaves its last window its name leaves the service's set of
  -- names, also if another series of the same service and name stays active in the census.
  pub release_forgets_name :
      (other : SeriesKey)
      → is_present fl l key window ≡ true
      → at key_discrete key l.windows ≡ 1
      → get key_discrete key l.overflow ≡ none
      → other ≢ key
      → scope fl other ≡ scope fl key
      → other.name_id ≡ key.name_id
      → 0 < at key_discrete other l.windows
      → let l' = release fl l key window in
        (0 < at key_discrete other l'.windows)
        × (has ℕ_discrete other.name_id (names_of fl (get scope_discrete (scope fl other) l'.names))
            ≡ false)
  unfolding discharge left unmark
  release_forgets_name other p one o ne sc nm a =
      rw (release_discharges p one o, sc, nm)
        (
          ground (
            arith,
            get-delete key_discrete other key (decr key_discrete key l.windows),
            at-decr key_discrete other key l.windows,
          ),
          forgotten fl left key,
        )
