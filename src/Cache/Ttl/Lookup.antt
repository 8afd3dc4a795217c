-- ===== src/Cache/Ttl/Lookup.antt =====
-- ttl.go: what a lookup sees after a `Set`.
use otelcontext.Base.{
  ℕ, ◌+◌, ◌≡◌, refl, ◌∙◌, ap, inl, inr, Bool, ◌&&◌, Option, none, some, arith, ltb, if◌then◌else◌,
  Text, text_discrete, ℤ, Option-cases, Bool-cases,
}
use otelcontext.Base.Map.{size, get}
use otelcontext.Base.Map.Laws.{get-put_self, get-delete_self}
use otelcontext.Cache.Ttl.{
  Entry, TtlCache, delete_locked, delete_expired, make_room, store, set_charged, set_value,
  charge_of, expired, look, bounded,
}
use otelcontext.Cache.Ttl.Charges.{delete_locked-items}

module _ (V : Type 0) (cache_size_bytes : V → Option ℤ) where
  -- What a lookup at `later` gives for a value stored or not stored at `now`.
  abbrev pub Answer : TtlCache V cache_size_bytes × Bool → Text → V → ℕ → ℕ → Type 0
  Answer r key value expiry later =
      look V cache_size_bytes r.0 key later ≡ (if r.1 && ltb later expiry then some value else none)

  deleted-look :
      (c : TtlCache V cache_size_bytes) (key : Text) (later : ℕ)
      → look V cache_size_bytes (delete_locked V cache_size_bytes c key) key later ≡ none
  unfolding look
  deleted-look c key later =
      let gone =
        ap (get text_discrete key) (delete_locked-items V cache_size_bytes c key)
        ∙ get-delete_self text_discrete key c.items in
      rw (gone, look) refl

  store-look :
      (c : TtlCache V cache_size_bytes) (key : Text) (value : V) (ttl now charge later : ℕ)
      → look V cache_size_bytes (store V cache_size_bytes c key value ttl now charge) key later
        ≡ (if ltb later (now + ttl) then some value else none)
  unfolding look store expired
  store-look c key value ttl now charge later =
      let e : Entry V cache_size_bytes = record {
        value = value;
        expires_at = now + ttl;
        charge = charge;
      } in
      let r = make_room V cache_size_bytes (size c.items) c charge in
      let found = get-put_self text_discrete key e r.items in rw (found, look) (ground arith)

  -- A `Set` that returns true makes lookups find the value until its expiry, and none after it;
  -- a `Set` that returns false leaves no value under the key.
  pub set_look :
      (c : TtlCache V cache_size_bytes) (key : Text) (value : V) (ttl now later : ℕ)
      → Answer (set_value V cache_size_bytes c key value ttl now) key value (now + ttl) later
  unfolding set_value set_charged
  set_look c key value ttl now later =
      let swept = delete_expired V cache_size_bytes c now in
      let d = delete_locked V cache_size_bytes swept key in
      elim (Option-cases (charge_of V cache_size_bytes c key value)) [
        | inl o ↦ rw (o, set_value) (deleted-look c key later)
        | inr (charge, o) ↦
            elim (Bool-cases (bounded V cache_size_bytes d && ltb d.max_bytes charge)) [
              | inl f ↦ rw (o, set_value, f, set_charged) (deleted-look swept key later)
              | inr f ↦
                  rw (o, set_value, f, set_charged) (store-look d key value ttl now charge later)
            ]
      ]
