-- ===== src/Cache/Ttl/Room.antt =====
-- ttl.go: the eviction loop ends with room.
use otelcontext.Base.{
  ℕ, zero, suc, ◌≤◌, ◌≡◌, refl, inl, inr, false, Option, [], ◌∷◌, arith, Text, text_discrete, ℤ,
  Bool-cases,
}
use otelcontext.Base.Map.{Map, size, delete}
use otelcontext.Base.Map.Weigh.{weigh, size-delete-le}
use otelcontext.Cache.Ttl.{Entry, TtlCache, make_room, evict_one, evict_first, is_full, bounded}
use otelcontext.Cache.Ttl.Charges.{
  Accounted, charge_in, delete_locked-items, evict_one-Accounted, evict_one-limits,
}

module _ (V : Type 0) (cache_size_bytes : V → Option ℤ) where
  weigh-empty :
      (m : Map Text (Entry V cache_size_bytes))
      → size m ≤ 0
      → weigh (charge_in V cache_size_bytes) m ≡ 0
  unfolding size weigh
  weigh-empty [] h = refl
  weigh-empty (e ∷ m) h = omega arith

  size-evict_first :
      (m : Map Text (Entry V cache_size_bytes)) (c : TtlCache V cache_size_bytes) (fuel : ℕ)
      → c.items ≡ m
      → size m ≤ suc fuel
      → size (evict_first V cache_size_bytes m c).items ≤ fuel
  unfolding evict_first size delete
  size-evict_first [] c fuel e h = rw e (omega arith)
  size-evict_first ((k, x) ∷ m) c fuel e h =
      ground
        (arith, delete_locked-items V cache_size_bytes c k, e, size-delete-le text_discrete k m)

  -- When the charged bytes are the sum of the charges and the new charge is within the byte
  -- limit, the eviction loop of `Set` ends with room for it after at most one iteration per
  -- entry.
  pub make_room_lem :
      (fuel : ℕ) (c : TtlCache V cache_size_bytes) (charge : ℕ)
      → Accounted V cache_size_bytes c
      → size c.items ≤ fuel
      → charge ≤ c.max_bytes
      → is_full V cache_size_bytes (make_room V cache_size_bytes fuel c charge) charge ≡ false
  unfolding make_room is_full Accounted bounded evict_one
  make_room_lem zero c charge a s f = ground (arith, weigh-empty c.items s)
  make_room_lem (suc fuel) c charge a s f =
      let smaller = size-evict_first c.items c fuel refl s in
      let l = evict_one-limits V cache_size_bytes c in
      elim (Bool-cases (is_full V cache_size_bytes c charge)) [
        | inl full ↦
            rw (full, make_room)
              (make_room_lem fuel (evict_one V cache_size_bytes c) charge
                (evict_one-Accounted V cache_size_bytes c a) smaller (ground (arith, l.1, f)))
        | inr full ↦ rw (full, make_room) full
      ]
