-- ===== src/Aggregate/Dict/History.antt =====
-- dict.go, MemRegistrar: identifiers over histories of calls.
use otelcontext.Base.{
  ℕ, ◌≡◌, ◌≢◌, refl, subst, inl, inr, true, some, List, [], ◌∷◌, Option-cases, Bool-cases,
}
use otelcontext.Base.Map.{Map, get}
use otelcontext.Base.Map.Laws.{get-put_self}
use otelcontext.Aggregate.Dict.{
  DictScope, DictName, MemRegistrar, Registered, minted, refused, new_registrar, mint_next,
  register_new, register, other_id, other_value, lookup, exhausted, at_capacity, dict_name_discrete,
  kind_valid,
}
use otelcontext.Aggregate.Dict.Registry.{
  Consistent, Extends, Extends-refl, Extends-trans, new-Consistent, register-Sound, other_id-Sound,
}

pub data Call : Type 0 where
  ask : DictName → Call
  ask_other : DictScope → Call

unfoldable pub call : MemRegistrar → Call → MemRegistrar
call r (ask n) = (register r n).0
call r (ask_other s) = (other_id r s).0

unfoldable pub calls : MemRegistrar → List Call → MemRegistrar
calls r [] = r
calls r (c ∷ cs) = calls (call r c) cs

call-Sound :
    (r : MemRegistrar) (c : Call) → Consistent r → Consistent (call r c) × Extends r (call r c)
unfolding call
call-Sound r (ask n) h = register-Sound r n h
call-Sound r (ask_other s) h = other_id-Sound r s h

calls-Sound :
    (r : MemRegistrar) (cs : List Call)
    → Consistent r
    → Consistent (calls r cs) × Extends r (calls r cs)
unfolding calls
calls-Sound r [] h = (h, Extends-refl r)
calls-Sound r (c ∷ cs) h =
    let first = call-Sound r c h in
    let rest = calls-Sound (call r c) cs first.0 in
    (rest.0, Extends-trans r (call r c) (calls (call r c) cs) first.1 rest.1)

-- What a registration leaves in the map.
abbrev Stored : DictName → MemRegistrar × Registered → Type 0
Stored n (r, minted id) = get dict_name_discrete n r.ids ≡ some id
Stored n (r, refused e) = Unit {0}

register_new-Stored : (r : MemRegistrar) (n : DictName) → Stored n (register_new r n)
unfolding register_new mint_next
register_new-Stored r n = elim (Bool-cases (at_capacity r n.scope)) [
  | inl h ↦ rw (h, register_new) tt
  | inr h ↦ elim (Bool-cases (exhausted r)) [
    | inl x ↦ rw (h, register_new, x) tt
    | inr x ↦ rw (h, register_new, x) (get-put_self dict_name_discrete n r.next r.ids)
  ]
]

register-Stored : (r : MemRegistrar) (n : DictName) → Stored n (register r n)
unfolding register
register-Stored r n = elim (Bool-cases (kind_valid n.scope.kind)) [
  | inr h ↦ rw (h, register) tt
  | inl h ↦ elim (Option-cases (get dict_name_discrete n r.ids)) [
    | inl g ↦ rw (h, register, g) (register_new-Stored r n)
    | inr (id, g) ↦ rw (h, register, g) g
  ]
]

pub registered :
    (r : MemRegistrar) (n : DictName) (id : ℕ)
    → (register r n).1 ≡ minted id
    → get dict_name_discrete n (register r n).0.ids ≡ some id
registered r n id h = subst (λ x. Stored n ((register r n).0, x)) h (register-Stored r n)

-- The registrar after some calls, a registration, and more calls.
abbrev pub after : Map ℕ ℕ → List Call → DictName → List Call → MemRegistrar
after limits before n later = calls (register (calls (new_registrar limits) before) n).0 later

-- An identifier that a registration of `n` returns resolves to `n` after any further calls: it is
-- never given to another name.
pub registered_resolves :
    (limits : Map ℕ ℕ) (before : List Call) (n : DictName) (id : ℕ) (later : List Call)
    → (register (calls (new_registrar limits) before) n).1 ≡ minted id
    → lookup (after limits before n later) id ≡ some n
unfolding lookup
registered_resolves limits before n id later h =
    let r = calls (new_registrar limits) before in
    let c = (calls-Sound (new_registrar limits) before (new-Consistent limits)).0 in
    let s = register-Sound r n c in
    let known = s.0.resolved n id (registered r n id h) in
    (calls-Sound (register r n).0 later s.0).1.kept id n known

register_known :
    (r : MemRegistrar) (n : DictName) (id : ℕ)
    → kind_valid n.scope.kind ≡ true
    → get dict_name_discrete n r.ids ≡ some id
    → register r n ≡ (r, minted id)
unfolding register
register_known r n id k g = rw (k, register, g) refl

-- After any further calls, a repeated registration of a name other than the overflow value, of a
-- kind that is valid, returns the same identifier and changes nothing.
pub registered_repeats :
    (limits : Map ℕ ℕ) (before : List Call) (n : DictName) (id : ℕ) (later : List Call)
    → kind_valid n.scope.kind ≡ true
    → n.value ≢ other_value
    → (register (calls (new_registrar limits) before) n).1 ≡ minted id
    → register (after limits before n later) n ≡ (after limits before n later, minted id)
registered_repeats limits before n id later k o h =
    let r = calls (new_registrar limits) before in
    let c = (calls-Sound (new_registrar limits) before (new-Consistent limits)).0 in
    let s = register-Sound r n c in
    let there = (calls-Sound (register r n).0 later s.0).1.named id n o (registered r n id h) in
    register_known (after limits before n later) n id k there
