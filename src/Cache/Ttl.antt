-- ===== src/Cache/Ttl.antt =====
-- internal/cache/ttl.go: entries with an expiry, bounded by their number and their charged bytes.
-- A method that holds the mutex is one step; the time that it reads is an argument. `any` is a
-- parameter, and so is the type assertion to `retainedSizer` with its `CacheSizeBytes`. The bytes
-- are `int64`, whose tests are written here without a subtraction that could go below zero.
pub mod Charges
pub mod Room
pub mod Bounds
pub mod Lookup
mod Tests
use otelcontext.Base.{
  ℕ, zero, suc, ◌+◌, ◌-◌, Bool, true, false, not, ◌&&◌, ◌||◌, Option, none, some, List, [], ◌∷◌,
  ltb, leb, if◌then◌else◌, Text, text_discrete, length, ℤ, pos, negsuc,
}
use otelcontext.Base.Map.{Map, size, get, put, delete}

abbrev pub entry_charge_bytes : ℕ
entry_charge_bytes = 64

module _ (V : Type 0) (cache_size_bytes : V → Option ℤ) where
  pub record Entry : Type 0 where
    pub value : V
    pub expires_at : ℕ
    pub charge : ℕ

  pub record TtlCache : Type 0 where
    pub items : Map Text Entry
    pub max_entries : ℕ
    pub max_bytes : ℕ
    pub charged_bytes : ℕ

  -- `New()` has both limits 0, `NewBounded` two positive ones.
  pub new_cache : ℕ → ℕ → TtlCache
  new_cache max_entries max_bytes = record {
    items = [];
    max_entries = max_entries;
    max_bytes = max_bytes;
    charged_bytes = 0;
  }

  pub delete_locked : TtlCache → Text → TtlCache
  delete_locked c key = elim (get text_discrete key c.items) [
    | none ↦ c
    | some e ↦ record c {
      items = delete text_discrete key c.items;
      charged_bytes = c.charged_bytes - e.charge;
    }
  ]

  pub expired : ℕ → Entry → Bool
  expired now e = leb e.expires_at now

  -- The loop of `deleteExpiredLocked` over the entries that the map has at its start.
  pub sweep : ℕ → Map Text Entry → TtlCache → TtlCache
  sweep now [] c = c
  sweep now ((key, e) ∷ m) c = sweep now m (if expired now e then delete_locked c key else c)

  pub delete_expired : TtlCache → ℕ → TtlCache
  delete_expired c now = sweep now c.items c

  pub bounded : TtlCache → Bool
  bounded c = ltb 0 c.max_entries

  -- The condition of the eviction loop of `Set`.
  pub is_full : TtlCache → ℕ → Bool
  is_full c charge =
      bounded c && (leb c.max_entries (size c.items) || ltb c.max_bytes (c.charged_bytes + charge))

  -- The body of the loop removes the entry that the map yields first.
  pub evict_first : Map Text Entry → TtlCache → TtlCache
  evict_first [] c = c
  evict_first ((victim, e) ∷ m) c = delete_locked c victim

  pub evict_one : TtlCache → TtlCache
  evict_one c = evict_first c.items c

  pub make_room : ℕ → TtlCache → ℕ → TtlCache
  make_room zero c charge = c
  make_room (suc fuel) c charge =
      let rest = make_room fuel (evict_one c) charge in if is_full c charge then rest else c

  -- The charge of a value, if the cache can account for it.
  pub charge_of : TtlCache → Text → V → Option ℕ
  charge_of c key value = if not (bounded c) then some 0 else elim (cache_size_bytes value) [
    | none ↦ none
    | some (negsuc n) ↦ none
    | some (pos payload) ↦
        if ltb c.max_bytes payload
          || (ltb c.max_bytes (length key + entry_charge_bytes)
              || ltb c.max_bytes (payload + length key + entry_charge_bytes))
        then none
        else some (entry_charge_bytes + length key + payload)
  ]

  -- The end of `Set`, for a charge that fits: one entry per loop iteration is enough fuel.
  pub store : TtlCache → Text → V → ℕ → ℕ → ℕ → TtlCache
  store c key value ttl now charge =
      let roomy = make_room (size c.items) c charge in
      record roomy {
        items =
            put text_discrete key
              (record { value = value; expires_at = now + ttl; charge = charge }) roomy.items;
        charged_bytes = roomy.charged_bytes + charge;
      }

  pub set_charged : TtlCache → Text → V → ℕ → ℕ → ℕ → TtlCache × Bool
  set_charged c key value ttl now charge =
      let cleared = delete_locked (delete_expired c now) key in
      if bounded cleared && ltb cleared.max_bytes charge
      then (cleared, false)
      else (store cleared key value ttl now charge, true)

  pub set_value : TtlCache → Text → V → ℕ → ℕ → TtlCache × Bool
  set_value c key value ttl now = elim (charge_of c key value) [
    | none ↦ (delete_locked c key, false)
    | some charge ↦ set_charged c key value ttl now charge
  ]

  -- The read of `Get` under the read lock, with the time read after it.
  pub look : TtlCache → Text → ℕ → Option V
  look c key now = elim (get text_discrete key c.items) [
    | none ↦ none
    | some e ↦ if expired now e then none else some e.value
  ]

  -- The step of `Get` under the write lock, which looks again.
  pub drop_expired : TtlCache → Text → ℕ → TtlCache
  drop_expired c key now = elim (get text_discrete key c.items) [
    | none ↦ c
    | some e ↦ if expired now e then delete_locked c key else c
  ]

  -- `Get` without another step between its two locks.
  pub get_value : TtlCache → Text → ℕ → TtlCache × Option V
  get_value c key now = (drop_expired c key now, look c key now)
