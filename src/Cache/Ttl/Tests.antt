-- ===== src/Cache/Ttl/Tests.antt =====
-- ttl.go with two entries and 200 bytes at most; a value is its own size.
use otelcontext.Base.{
  ℕ, ◌≤◌, ◌≡◌, refl, true, false, Option, some, List, [], ◌∷◌, arith, text, ℤ, pos,
}
use otelcontext.Base.Map.{size, get}
use otelcontext.Base.Map.Weigh.{weigh}
use otelcontext.Cache.Ttl.{TtlCache, new_cache, is_full, make_room, bounded}
use otelcontext.Cache.Ttl.Charges.{charge_in, Accounted}
use otelcontext.Cache.Ttl.Room.{make_room_lem}
use otelcontext.Cache.Ttl.Bounds.{Step, set_step, tick_step, steps, steps_bounded}

abbrev own_size : ℕ → Option ℤ
own_size n = some (pos n)

abbrev filling : List (Step ℕ own_size)
filling =
    set_step (text "a") 30 10 0
    ∷ set_step (text "b") 20 10 1
    ∷ set_step (text "c") 50 10 2
    ∷ tick_step 11
    ∷ []

filled : TtlCache ℕ own_size
filled = steps ℕ own_size (new_cache ℕ own_size 2 200) filling

steps_bounded_example :
    (size (steps ℕ own_size (new_cache ℕ own_size 2 200) filling).items ≤ 2)
    × ((steps ℕ own_size (new_cache ℕ own_size 2 200) filling).charged_bytes
        ≡ weigh
            (charge_in ℕ own_size)
            (steps ℕ own_size (new_cache ℕ own_size 2 200) filling).items)
    × ((steps ℕ own_size (new_cache ℕ own_size 2 200) filling).charged_bytes ≤ 200)
steps_bounded_example = steps_bounded ℕ own_size 2 200 filling (omega arith)

abbrev crowded : TtlCache ℕ own_size
crowded = record {
  items = (text "a", record { value = 25; expires_at = 10; charge = 90 }) ∷ [];
  max_entries = 2;
  max_bytes = 100;
  charged_bytes = 90;
}

-- The entry has to leave for a charge of 50.
crowded-is_full : is_full ℕ own_size crowded 50 ≡ true
unfolding is_full bounded size
crowded-is_full = refl

make_room_lem_example : is_full ℕ own_size (make_room ℕ own_size 1 crowded 50) 50 ≡ false
unfolding size Accounted weigh get
make_room_lem_example =
    make_room_lem ℕ own_size 1 crowded 50 ((refl, tt), refl) (omega arith) (omega arith)
