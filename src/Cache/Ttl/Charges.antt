-- ===== src/Cache/Ttl/Charges.antt =====
-- ttl.go: the charged bytes are the sum of the charges, and the keys are distinct.
use otelcontext.Base.{
  ℕ, zero, suc, ◌≤◌, ◌≡◌, refl, sym, ◌∙◌, inl, inr, Option, none, [], ◌∷◌, arith, Text,
  text_discrete, ℤ, Option-cases, Bool-cases,
}
use otelcontext.Base.Map.{Map, get, delete}
use otelcontext.Base.Map.Laws.{Distinct, delete-Distinct, delete_missing, get-delete}
use otelcontext.Base.Map.Weigh.{weigh, weigh-delete}
use otelcontext.Cache.Ttl.{
  Entry, TtlCache, delete_locked, make_room, evict_one, evict_first, is_full,
}

module _ (V : Type 0) (cache_size_bytes : V → Option ℤ) where
  abbrev pub charge_in : Entry V cache_size_bytes → ℕ
  charge_in e = e.charge

  -- What holds of every cache.
  unfoldable pub Accounted : TtlCache V cache_size_bytes → Type 0
  Accounted c = Distinct text_discrete c.items × (c.charged_bytes ≡ weigh charge_in c.items)

  -- The two limits of a cache.
  abbrev Limited : ℕ → ℕ → TtlCache V cache_size_bytes → Type 0
  Limited n b c = (c.max_entries ≡ n) × (c.max_bytes ≡ b)

  pub delete_locked-items :
      (c : TtlCache V cache_size_bytes) (key : Text)
      → (delete_locked V cache_size_bytes c key).items ≡ delete text_discrete key c.items
  unfolding delete_locked
  delete_locked-items c key = elim (Option-cases (get text_discrete key c.items)) [
    | inl h ↦ rw (h, delete_locked) (sym (delete_missing text_discrete key c.items h))
    | inr (e, h) ↦ rw (h, delete_locked) refl
  ]

  pub delete_locked-Accounted :
      (c : TtlCache V cache_size_bytes) (key : Text)
      → Accounted c
      → Accounted (delete_locked V cache_size_bytes c key)
  unfolding delete_locked Accounted
  delete_locked-Accounted c key h = elim (Option-cases (get text_discrete key c.items)) [
    | inl n ↦ rw (n, delete_locked) h
    | inr (e, n) ↦
        let w = weigh-delete text_discrete charge_in key e c.items h.0 n in
        rw (n, delete_locked) (delete-Distinct text_discrete key c.items h.0, omega (arith, w, h.1))
  ]

  pub delete_locked-limits :
      (c : TtlCache V cache_size_bytes) (key : Text)
      → Limited c.max_entries c.max_bytes (delete_locked V cache_size_bytes c key)
  unfolding delete_locked
  delete_locked-limits c key = ground arith

  pub delete_locked-charged :
      (c : TtlCache V cache_size_bytes) (key : Text)
      → (delete_locked V cache_size_bytes c key).charged_bytes ≤ c.charged_bytes
  unfolding delete_locked
  delete_locked-charged c key = ground arith

  pub evict_first-Accounted :
      (m : Map Text (Entry V cache_size_bytes)) (c : TtlCache V cache_size_bytes)
      → Accounted c
      → Accounted (evict_first V cache_size_bytes m c)
  unfolding evict_first
  evict_first-Accounted [] c h = h
  evict_first-Accounted ((k, e) ∷ m) c h = delete_locked-Accounted c k h

  pub evict_one-Accounted :
      (c : TtlCache V cache_size_bytes) → Accounted c → Accounted (evict_one V cache_size_bytes c)
  unfolding evict_one
  evict_one-Accounted c h = evict_first-Accounted c.items c h

  pub evict_one-limits :
      (c : TtlCache V cache_size_bytes)
      → Limited c.max_entries c.max_bytes (evict_one V cache_size_bytes c)
  unfolding evict_one evict_first delete_locked
  evict_one-limits c = ground arith

  pub make_room-Accounted :
      (fuel : ℕ) (c : TtlCache V cache_size_bytes) (charge : ℕ)
      → Accounted c
      → Accounted (make_room V cache_size_bytes fuel c charge)
  unfolding make_room
  make_room-Accounted zero c charge h = h
  make_room-Accounted (suc fuel) c charge h =
      elim (Bool-cases (is_full V cache_size_bytes c charge)) [
        | inl f ↦ rw f (
            make_room-Accounted fuel (evict_one V cache_size_bytes c) charge
              (evict_one-Accounted c h))
        | inr f ↦ rw f h
      ]

  pub make_room-limits :
      (fuel : ℕ) (c : TtlCache V cache_size_bytes) (charge : ℕ)
      → Limited c.max_entries c.max_bytes (make_room V cache_size_bytes fuel c charge)
  unfolding make_room
  make_room-limits zero c charge = (refl, refl)
  make_room-limits (suc fuel) c charge =
      let l = evict_one-limits c in
      let r = make_room-limits fuel (evict_one V cache_size_bytes c) charge in
      elim (Bool-cases (is_full V cache_size_bytes c charge)) [
        | inl f ↦ rw (f, make_room) (r.0 ∙ l.0, r.1 ∙ l.1)
        | inr f ↦ rw (f, make_room) (refl, refl)
      ]

  delete_locked-missing :
      (c : TtlCache V cache_size_bytes) (key k : Text)
      → get text_discrete key c.items ≡ none
      → get text_discrete key (delete_locked V cache_size_bytes c k).items ≡ none
  delete_locked-missing c key k h =
      ground (arith, h, delete_locked-items c k, get-delete text_discrete key k c.items)

  evict_first-missing :
      (m : Map Text (Entry V cache_size_bytes)) (c : TtlCache V cache_size_bytes) (key : Text)
      → get text_discrete key c.items ≡ none
      → get text_discrete key (evict_first V cache_size_bytes m c).items ≡ none
  unfolding evict_first
  evict_first-missing [] c key h = h
  evict_first-missing ((k, e) ∷ m) c key h = delete_locked-missing c key k h

  pub make_room-missing :
      (fuel : ℕ) (c : TtlCache V cache_size_bytes) (key : Text) (charge : ℕ)
      → get text_discrete key c.items ≡ none
      → get text_discrete key (make_room V cache_size_bytes fuel c charge).items ≡ none
  unfolding make_room evict_one
  make_room-missing zero c key charge h = h
  make_room-missing (suc fuel) c key charge h =
      let g = evict_first-missing c.items c key h in
      elim (Bool-cases (is_full V cache_size_bytes c charge)) [
        | inl f ↦
            rw (f, make_room) (make_room-missing fuel (evict_one V cache_size_bytes c) key charge g)
        | inr f ↦ rw (f, make_room) h
      ]
