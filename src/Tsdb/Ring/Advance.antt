-- ===== src/Tsdb/Ring/Advance.antt =====
-- ringbuffer.go: where a ring stands after it has advanced to the window of a point.
use otelcontext.Base.{
  ℕ, zero, suc, ◌+◌, ◌-◌, ◌*◌, ◌/◌, ◌%◌, ◌<◌, ◌≡◌, refl, ◌∙◌, ap, inl, inr, true, false, some,
  arith, ltb, ◌==◌, min, Float64, length, set, length-set, get_elem?, get_elem?-set_self,
  Bool-cases,
}
use native.Mathlib.Nat.{mul-div_cancel}
use otelcontext.Tsdb.Aggregator.{truncate}
use otelcontext.Tsdb.Ring.{
  WindowAgg, MetricRing, advance_one, advance, catch_up, steps_to, empty_at, new_empty_agg,
  add_sample, update_slot, record_ring,
}

module _ (fl : Float64) where
  open fl use {F}

  -- Windows have a length, the slots fill the ring, and the current slot is the window that starts
  -- at `current_start`.
  unfoldable pub Sound : MetricRing fl → Type 0
  Sound r =
      (0 < r.size)
      × (0 < r.window_dur)
      × (length r.slots ≡ r.size)
      × (r.current_idx < r.size)
      × ((w : WindowAgg fl) × (get_elem? r.slots r.current_idx ≡ some w)
          × (w.window_start ≡ r.current_start))

  advance_one-Sound : (r : MetricRing fl) → Sound r → Sound (advance_one fl r)
  unfolding Sound advance_one empty_at new_empty_agg
  advance_one-Sound r h =
      let idx = (r.current_idx + 1) % r.size in
      let start = r.current_start + r.window_dur in
      let below : idx < r.size = omega (arith, h.0) in
      let inside : idx < length r.slots = omega (arith, below, h.2) in
      (
        h.0,
        h.1,
        length-set r.slots idx (empty_at fl r start) ∙ h.2,
        below,
        (empty_at fl r start, get_elem?-set_self r.slots idx (empty_at fl r start) inside, refl),
      )

  pub advance-Sound : (n : ℕ) (r : MetricRing fl) → Sound r → Sound (advance fl n r)
  unfolding advance
  advance-Sound zero r h = h
  advance-Sound (suc n) r h = advance-Sound n (advance_one fl r) (advance_one-Sound r h)

  advance-start :
      (n : ℕ) (r : MetricRing fl)
      → (advance fl n r).current_start ≡ r.current_start + n * r.window_dur
  unfolding advance advance_one
  advance-start zero r = omega arith
  advance-start (suc n) r = let e = advance-start n (advance_one fl r) in omega (arith, e)

  catch_up-Sound :
      (r : MetricRing fl) (window_start : ℕ)
      → Sound r
      → (after : MetricRing fl) × (catch_up fl r window_start ≡ some after) × Sound after
  unfolding catch_up Sound
  catch_up-Sound r window_start h =
      let a = advance-Sound (steps_to fl r window_start) r h in
      elim (Bool-cases (ltb r.current_start window_start)) [
        | inl l ↦
            let some_length : (r.window_dur == 0) ≡ false = ground (arith, h.1) in
            rw (l, some_length) (advance fl (steps_to fl r window_start) r, refl, a)
        | inr l ↦ rw l (r, refl, h)
      ]

  update_slot-Sound :
      (r : MetricRing fl) (value : F)
      → Sound r
      → (after : MetricRing fl) × (update_slot fl r value ≡ some after) × Sound after
  unfolding Sound update_slot add_sample
  update_slot-Sound r value (pos, dur, len, below, (w, at, start)) =
      let slots = set r.slots r.current_idx (add_sample fl w value) in
      let inside : r.current_idx < length r.slots = omega (arith, below, len) in
      let same = length-set r.slots r.current_idx (add_sample fl w value) in
      let found = get_elem?-set_self r.slots r.current_idx (add_sample fl w value) inside in
      (
        record r { slots = slots },
        rw (at, update_slot) refl,
        (pos, dur, same ∙ len, below, (add_sample fl w value, found, start)),
      )

  -- In a ring of windows that have a length, that has slots, all of its size, and whose current
  -- index stands inside them at the window of the current start, recording a point does not panic
  -- and leaves such a ring.
  pub record_ring-Sound :
      (r : MetricRing fl) (value : F) (time : ℕ)
      → Sound r
      → (after : MetricRing fl) × (record_ring fl r value time ≡ some after) × Sound after
  unfolding record_ring
  record_ring-Sound r value time h =
      let (c, caught, sound) = catch_up-Sound r (truncate time r.window_dur) h in
      rw (caught, record_ring) (update_slot-Sound c value sound)

  -- With windows of positive length, a point that lies `k` windows after the current start
  -- moves that start by `k` windows, or by the number of slots if that is less.
  pub catch_up-start :
      (r : MetricRing fl) (k : ℕ)
      → 0 < r.window_dur
      → (after : MetricRing fl) × (catch_up fl r (r.current_start + k * r.window_dur) ≡ some after)
        × (after.current_start ≡ r.current_start + min k r.size * r.window_dur)
  unfolding catch_up steps_to
  catch_up-start r zero pos =
      let here : ltb r.current_start (r.current_start + 0 * r.window_dur) ≡ false = ground arith in
      let zero_steps : min 0 r.size ≡ 0 = omega arith in
      let none_left = ap (λ n. n * r.window_dur) zero_steps in
      rw here (r, refl, omega (arith, none_left))
  catch_up-start r (suc k) pos =
      let d = r.window_dur in
      let ahead : ltb r.current_start (r.current_start + suc k * d) ≡ true = ground (arith, pos) in
      let gap : r.current_start + suc k * d - r.current_start ≡ suc k * d = omega arith in
      let windows =
        ap (λ n. min (n / d) r.size) gap ∙ ap (λ n. min n r.size) (mul-div_cancel (suc k) pos) in
      let moved = advance-start (steps_to fl r (r.current_start + suc k * d)) r in
      let some_length : (r.window_dur == 0) ≡ false = ground (arith, pos) in
      rw (ahead, some_length) (_, refl, moved ∙ ap (λ n. r.current_start + n * d) windows)
