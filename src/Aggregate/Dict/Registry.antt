-- ===== src/Aggregate/Dict/Registry.antt =====
-- dict.go, MemRegistrar: what an identifier resolves to, for ever; and the caps on namespaces.
use otelcontext.Base.{
  ℕ, ◌≤◌, ◌≡◌, ◌≢◌, refl, ◌⊎◌, inl, inr, none, some, arith, ℕ_discrete, Option-cases, Bool-cases,
}
use otelcontext.Base.Map.{Map, get}
use otelcontext.Base.Map.Laws.{get-put}
use otelcontext.Aggregate.Dict.{
  DictScope, DictName, MemRegistrar, new_registrar, mint_next, register_new, register, other_new,
  other_id, other_name, other_value, exhausted, at_capacity, dict_name_discrete,
  dict_scope_discrete, kind_valid,
}

-- Identifiers are minted below `next`, and both maps agree on them.
pub record Consistent (r : MemRegistrar) : Type 0 where
  pub fresh : (id : ℕ) → r.next ≤ id → get ℕ_discrete id r.by_id ≡ none
  pub resolved :
      (n : DictName) (id : ℕ)
      → get dict_name_discrete n r.ids ≡ some id
      → get ℕ_discrete id r.by_id ≡ some n
  pub others :
      (s : DictScope) (id : ℕ)
      → get dict_scope_discrete s r.other ≡ some id
      → get ℕ_discrete id r.by_id ≡ some (other_name s)

-- What a later registrar still knows.
pub record Extends (r later : MemRegistrar) : Type 0 where
  pub kept :
      (id : ℕ) (n : DictName)
      → get ℕ_discrete id r.by_id ≡ some n
      → get ℕ_discrete id later.by_id ≡ some n
  pub named :
      (id : ℕ) (n : DictName)
      → n.value ≢ other_value
      → get dict_name_discrete n r.ids ≡ some id
      → get dict_name_discrete n later.ids ≡ some id

pub new-Consistent : (limits : Map ℕ ℕ) → Consistent (new_registrar limits)
unfolding new_registrar get
new-Consistent limits = record {
  fresh = λ id h. refl;
  resolved = λ n id h. absurd (cc);
  others = λ s id h. absurd (cc);
}

mint_next-Consistent : (r : MemRegistrar) (n : DictName) → Consistent r → Consistent (mint_next r n)
unfolding mint_next
mint_next-Consistent r n c = record {
  fresh = λ id h. ground (arith, get-put ℕ_discrete id r.next n r.by_id, c.fresh id);
  resolved = λ m id h. grind (
    arith,
    get-put dict_name_discrete m n r.next r.ids,
    get-put ℕ_discrete id r.next n r.by_id,
    c.resolved m id,
    c.fresh id,
  );
  others =
      λ s id h. grind (arith, get-put ℕ_discrete id r.next n r.by_id, c.others s id, c.fresh id);
}

pub Extends-refl : (r : MemRegistrar) → Extends r r
Extends-refl r = record { kept = λ id n h. h; named = λ id n o h. h }

pub Extends-trans : (r s t : MemRegistrar) → Extends r s → Extends s t → Extends r t
Extends-trans r s t e f = record {
  kept = λ id n h. f.kept id n (e.kept id n h);
  named = λ id n o h. f.named id n o (e.named id n o h);
}

-- A name is minted that is not there, or is that of an overflow entry.
mint_next-Extends :
    (r : MemRegistrar) (n : DictName)
    → Consistent r
    → (get dict_name_discrete n r.ids ≡ none) ⊎ (n.value ≡ other_value)
    → Extends r (mint_next r n)
unfolding mint_next
mint_next-Extends r n c new = record {
  kept = λ id m h. grind (arith, get-put ℕ_discrete id r.next n r.by_id, c.fresh id);
  named = λ id m o h. grind (arith, get-put dict_name_discrete m n r.next r.ids, new);
}

register_new-Consistent :
    (r : MemRegistrar) (n : DictName) → Consistent r → Consistent (register_new r n).0
unfolding register_new
register_new-Consistent r n c =
    let m = mint_next-Consistent r n c in
    elim (Bool-cases (at_capacity r n.scope)) [
      | inl h ↦ rw (h, register_new) c
      | inr h ↦ elim (Bool-cases (exhausted r)) [
        | inl x ↦ rw (h, register_new, x) c
        | inr x ↦
            rw (h, register_new, x)
              (record { fresh = m.fresh; resolved = m.resolved; others = m.others })
      ]
    ]

register_new-Extends :
    (r : MemRegistrar) (n : DictName)
    → Consistent r
    → get dict_name_discrete n r.ids ≡ none
    → Extends r (register_new r n).0
unfolding register_new
register_new-Extends r n c new =
    let m = mint_next-Extends r n c (inl new) in
    elim (Bool-cases (at_capacity r n.scope)) [
      | inl h ↦ rw (h, register_new) (Extends-refl r)
      | inr h ↦ elim (Bool-cases (exhausted r)) [
        | inl x ↦ rw (h, register_new, x) (Extends-refl r)
        | inr x ↦ rw (h, register_new, x) (record { kept = m.kept; named = m.named })
      ]
    ]

pub register-Sound :
    (r : MemRegistrar) (n : DictName)
    → Consistent r
    → Consistent (register r n).0 × Extends r (register r n).0
unfolding register
register-Sound r n c = elim (Bool-cases (kind_valid n.scope.kind)) [
  | inr h ↦ rw (h, register) (c, Extends-refl r)
  | inl h ↦ elim (Option-cases (get dict_name_discrete n r.ids)) [
    | inl g ↦ rw (h, register, g) (register_new-Consistent r n c, register_new-Extends r n c g)
    | inr (id, g) ↦ rw (h, register, g) (c, Extends-refl r)
  ]
]

pub other_id-Sound :
    (r : MemRegistrar) (s : DictScope)
    → Consistent r
    → Consistent (other_id r s).0 × Extends r (other_id r s).0
unfolding other_id other_new mint_next
other_id-Sound r s c =
    let m = mint_next-Consistent r (other_name s) c in
    let e = mint_next-Extends r (other_name s) c (inr refl) in
    elim (Option-cases (get dict_scope_discrete s r.other)) [
      | inr (id, g) ↦ rw (g, other_id) (c, Extends-refl r)
      | inl g ↦ elim (Bool-cases (exhausted r)) [
        | inl x ↦ rw (g, other_id, x, other_new) (c, Extends-refl r)
        | inr x ↦
            rw (g, other_id, x, other_new)
              (
                record {
                  fresh = m.fresh;
                  resolved = m.resolved;
                  others = λ t id h. grind (
                    arith,
                    h,
                    get-put dict_scope_discrete t s r.next r.other,
                    get-put ℕ_discrete id r.next (other_name s) r.by_id,
                    c.others t id,
                    c.fresh id,
                  );
                },
                record { kept = e.kept; named = e.named },
              )
      ]
    ]
