-- ===== src/Cache/Ttl/Bounds.antt =====
-- ttl.go: both limits hold after any history.
use otelcontext.Base.{
  ℕ, ◌+◌, ◌≤◌, ◌<◌, ◌≡◌, refl, ◌∙◌, ap, inl, inr, false, Option, none, List, [], ◌∷◌, arith, ltb,
  ◌&&◌, Text, text_discrete, ℤ, Option-cases, Bool-cases,
}
use otelcontext.Base.Map.{Map, size, get, put}
use otelcontext.Base.Map.Laws.{get-delete_self, put-Distinct}
use otelcontext.Base.Map.Weigh.{weigh, weigh-put_new, size-put-le, size-delete-le}
use otelcontext.Cache.Ttl.{
  Entry, TtlCache, delete_locked, sweep, delete_expired, make_room, is_full, store, set_charged,
  set_value, charge_of, drop_expired, bounded, new_cache, expired,
}
use otelcontext.Cache.Ttl.Charges.{
  Accounted, charge_in, delete_locked-items, delete_locked-Accounted, delete_locked-limits,
  delete_locked-charged, make_room-Accounted, make_room-limits, make_room-missing,
}
use otelcontext.Cache.Ttl.Room.{make_room_lem}

module _ (V : Type 0) (cache_size_bytes : V → Option ℤ) where
  -- What holds of a cache with two positive limits `n` and `b`.
  Within : ℕ → ℕ → TtlCache V cache_size_bytes → Type 0
  Within n b c =
      Accounted V cache_size_bytes c
      × (c.max_entries ≡ n)
      × (c.max_bytes ≡ b)
      × (size c.items ≤ n)
      × (c.charged_bytes ≤ b)

  delete_locked-Within :
      (n b : ℕ) (c : TtlCache V cache_size_bytes) (key : Text)
      → Within n b c
      → Within n b (delete_locked V cache_size_bytes c key)
  unfolding Within
  delete_locked-Within n b c key h =
      let l = delete_locked-limits V cache_size_bytes c key in
      (
        delete_locked-Accounted V cache_size_bytes c key h.0,
        l.0 ∙ h.1,
        l.1 ∙ h.2,
        ground (
          arith,
          delete_locked-items V cache_size_bytes c key,
          size-delete-le text_discrete key c.items,
          h.3,
        ),
        ground (arith, delete_locked-charged V cache_size_bytes c key, h.4),
      )

  sweep-Within :
      (n b now : ℕ) (m : Map Text (Entry V cache_size_bytes)) (c : TtlCache V cache_size_bytes)
      → Within n b c
      → Within n b (sweep V cache_size_bytes now m c)
  unfolding sweep
  sweep-Within n b now [] c h = h
  sweep-Within n b now ((key, e) ∷ m) c h = elim (Bool-cases (expired V cache_size_bytes now e)) [
    | inl x ↦
        rw (x, sweep)
          (sweep-Within n b now m (delete_locked V cache_size_bytes c key)
            (delete_locked-Within n b c key h))
    | inr x ↦ rw (x, sweep) (sweep-Within n b now m c h)
  ]

  room_left :
      (c : TtlCache V cache_size_bytes) (charge : ℕ)
      → 0 < c.max_entries
      → is_full V cache_size_bytes c charge ≡ false
      → (size c.items < c.max_entries) × (c.charged_bytes + charge ≤ c.max_bytes)
  unfolding is_full bounded
  room_left c charge pos h = ground arith

  put-Accounted :
      (c : TtlCache V cache_size_bytes) (key : Text) (e : Entry V cache_size_bytes)
      → Accounted V cache_size_bytes c
      → get text_discrete key c.items ≡ none
      → Accounted V cache_size_bytes (record c {
        items = put text_discrete key e c.items;
        charged_bytes = c.charged_bytes + e.charge;
      })
  unfolding Accounted
  put-Accounted c key e a h =
      let w = weigh-put_new text_discrete (charge_in V cache_size_bytes) key e c.items h in
      (put-Distinct text_discrete key e c.items a.0, omega (arith, w, a.1))

  -- Storing an entry that fits keeps the limits.
  store-Within :
      (n b : ℕ) (c : TtlCache V cache_size_bytes) (key : Text) (value : V) (ttl now charge : ℕ)
      → 0 < n
      → charge ≤ b
      → Within n b c
      → get text_discrete key c.items ≡ none
      → Within n b (store V cache_size_bytes c key value ttl now charge)
  unfolding Within store
  store-Within n b c key value ttl now charge pos f h g =
      let fuel = size c.items in
      let r = make_room V cache_size_bytes fuel c charge in
      let e : Entry V cache_size_bytes = record {
        value = value;
        expires_at = now + ttl;
        charge = charge;
      } in
      let missing = make_room-missing V cache_size_bytes fuel c key charge g in
      let accounted = make_room-Accounted V cache_size_bytes fuel c charge h.0 in
      let l = make_room-limits V cache_size_bytes fuel c charge in
      let done =
        make_room_lem V cache_size_bytes fuel c charge h.0 (omega arith) (omega (arith, f, h.2)) in
      let left = room_left r charge (omega (arith, pos, l.0, h.1)) done in
      (
        put-Accounted r key e accounted missing,
        l.0 ∙ h.1,
        l.1 ∙ h.2,
        omega (arith, size-put-le text_discrete key e r.items, left.0, l.0, h.1),
        omega (arith, left.1, l.1, h.2),
      )

  cleared-Within :
      (n b : ℕ) (c : TtlCache V cache_size_bytes) (key : Text) (now : ℕ)
      → Within n b c
      → Within n b (delete_locked V cache_size_bytes (delete_expired V cache_size_bytes c now) key)
  unfolding delete_expired
  cleared-Within n b c key now h =
      delete_locked-Within n b (sweep V cache_size_bytes now c.items c) key
        (sweep-Within n b now c.items c h)

  set_charged-Within :
      (n b : ℕ) (c : TtlCache V cache_size_bytes) (key : Text) (value : V) (ttl now charge : ℕ)
      → 0 < n
      → Within n b c
      → Within n b ((set_charged V cache_size_bytes c key value ttl now charge).0)
  unfolding set_charged bounded Within
  set_charged-Within n b c key value ttl now charge pos h =
      let swept = delete_expired V cache_size_bytes c now in
      let d = delete_locked V cache_size_bytes swept key in
      let w = cleared-Within n b c key now h in
      let missing : get text_discrete key d.items ≡ none =
        ap (get text_discrete key) (delete_locked-items V cache_size_bytes swept key)
        ∙ get-delete_self text_discrete key swept.items in
      elim (Bool-cases (bounded V cache_size_bytes d && ltb d.max_bytes charge)) [
        | inl o ↦ rw (o, set_charged) w
        | inr o ↦
            rw (o, set_charged)
              (store-Within n b d key value ttl now charge pos (ground (arith, o, w.1, w.2, pos)) w
                missing)
      ]

  set_value-Within :
      (n b : ℕ) (c : TtlCache V cache_size_bytes) (key : Text) (value : V) (ttl now : ℕ)
      → 0 < n
      → Within n b c
      → Within n b ((set_value V cache_size_bytes c key value ttl now).0)
  unfolding set_value
  set_value-Within n b c key value ttl now pos h =
      elim (Option-cases (charge_of V cache_size_bytes c key value)) [
        | inl o ↦ rw (o, set_value) (delete_locked-Within n b c key h)
        | inr (charge, o) ↦
            rw (o, set_value) (set_charged-Within n b c key value ttl now charge pos h)
      ]

  drop_expired-Within :
      (n b : ℕ) (c : TtlCache V cache_size_bytes) (key : Text) (now : ℕ)
      → Within n b c
      → Within n b (drop_expired V cache_size_bytes c key now)
  unfolding drop_expired
  drop_expired-Within n b c key now h =
      let d = delete_locked-Within n b c key h in
      elim (Option-cases (get text_discrete key c.items)) [
        | inl o ↦ rw (o, drop_expired) h
        | inr (e, o) ↦ elim (Bool-cases (expired V cache_size_bytes now e)) [
          | inl x ↦ rw (o, x, drop_expired) d
          | inr x ↦ rw (o, x, drop_expired) h
        ]
      ]

  -- The steps that change a cache, each with the time that it reads.
  pub data Step : Type 0 where
    set_step : Text → V → ℕ → ℕ → Step
    expire_step : Text → ℕ → Step
    delete_step : Text → Step
    tick_step : ℕ → Step

  pub step : TtlCache V cache_size_bytes → Step → TtlCache V cache_size_bytes
  step c (set_step key value ttl now) = (set_value V cache_size_bytes c key value ttl now).0
  step c (expire_step key now) = drop_expired V cache_size_bytes c key now
  step c (delete_step key) = delete_locked V cache_size_bytes c key
  step c (tick_step now) = delete_expired V cache_size_bytes c now

  pub steps : TtlCache V cache_size_bytes → List Step → TtlCache V cache_size_bytes
  steps c [] = c
  steps c (s ∷ ss) = steps (step c s) ss

  step-Within :
      (n b : ℕ) (c : TtlCache V cache_size_bytes) (s : Step)
      → 0 < n
      → Within n b c
      → Within n b (step c s)
  unfolding step delete_expired
  step-Within n b c (set_step key value ttl now) pos h =
      set_value-Within n b c key value ttl now pos h
  step-Within n b c (expire_step key now) pos h = drop_expired-Within n b c key now h
  step-Within n b c (delete_step key) pos h = delete_locked-Within n b c key h
  step-Within n b c (tick_step now) pos h = sweep-Within n b now c.items c h

  steps-Within :
      (n b : ℕ) (c : TtlCache V cache_size_bytes) (ss : List Step)
      → 0 < n
      → Within n b c
      → Within n b (steps c ss)
  unfolding steps
  steps-Within n b c [] pos h = h
  steps-Within n b c (s ∷ ss) pos h = steps-Within n b (step c s) ss pos (step-Within n b c s pos h)

  -- After any history a cache made with a positive limit `n` on its entries and a limit `b` on
  -- its bytes holds at most `n` entries, its charged bytes are the sum of the charges of its
  -- entries, and that sum is at most `b`.
  pub steps_bounded :
      (n b : ℕ) (ss : List Step)
      → 0 < n
      → (size (steps (new_cache V cache_size_bytes n b) ss).items ≤ n)
        × ((steps (new_cache V cache_size_bytes n b) ss).charged_bytes
            ≡ weigh
                (charge_in V cache_size_bytes)
                (steps (new_cache V cache_size_bytes n b) ss).items)
        × ((steps (new_cache V cache_size_bytes n b) ss).charged_bytes ≤ b)
  unfolding Within Accounted new_cache size weigh
  steps_bounded n b ss pos =
      let start : Within n b (new_cache V cache_size_bytes n b) =
        ((tt, refl), refl, refl, omega arith, omega arith) in
      let h = steps-Within n b (new_cache V cache_size_bytes n b) ss pos start in (h.3, h.0.1, h.4)
