-- ===== src/Aggregate/Dict/Interning/Memory.antt =====
-- dict.go: MemRegistrar is a registrar for the cache.
use otelcontext.Base.{ℕ, ◌≡◌, ◌⊎◌, refl, inl, inr, some, ℕ_discrete, Option-cases, Bool-cases}
use otelcontext.Base.Map.{get}
use otelcontext.Base.Map.Laws.{get-put_self}
use otelcontext.Aggregate.Dict.{
  DictScope, DictName, MemRegistrar, minted, lookup, register, other_id, other_new, other_name,
  exhausted, mint_next, dict_scope_discrete,
}
use otelcontext.Aggregate.Dict.Registry.{Consistent, register-Sound, other_id-Sound}
use otelcontext.Aggregate.Dict.History.{registered}
use otelcontext.Aggregate.Dict.Interning.{Registrar}

pub other_resolves :
    (r : MemRegistrar) (s : DictScope)
    → Consistent r
    → ((other_id r s).1 ≡ 0) ⊎ (lookup (other_id r s).0 (other_id r s).1 ≡ some (other_name s))
unfolding other_id other_new mint_next lookup
other_resolves r s c =
    let new = get-put_self ℕ_discrete r.next (other_name s) r.by_id in
    elim (Option-cases (get dict_scope_discrete s r.other)) [
      | inr (id, g) ↦ rw (g, other_id) (inr (c.others s id g))
      | inl g ↦ elim (Bool-cases (exhausted r)) [
        | inl x ↦ rw (g, other_id, x, other_new) (inl refl)
        | inr x ↦ rw (g, other_id, x, other_new) (inr new)
      ]
    ]

pub lookup-register :
    (r : MemRegistrar) (n : DictName) (id : ℕ) (m : DictName)
    → Consistent r
    → lookup r id ≡ some m
    → lookup (register r n).0 id ≡ some m
unfolding lookup
lookup-register r n id m c h = (register-Sound r n c).1.kept id m h

pub lookup-other_id :
    (r : MemRegistrar) (s : DictScope) (id : ℕ) (m : DictName)
    → Consistent r
    → lookup r id ≡ some m
    → lookup (other_id r s).0 id ≡ some m
unfolding lookup
lookup-other_id r s id m c h = (other_id-Sound r s c).1.kept id m h

pub register_resolves :
    (r : MemRegistrar) (n : DictName) (id : ℕ)
    → Consistent r
    → (register r n).1 ≡ minted id
    → lookup (register r n).0 id ≡ some n
unfolding lookup
register_resolves r n id c h = (register-Sound r n c).0.resolved n id (registered r n id h)

abbrev pub mem_registrar : Registrar
mem_registrar = record {
  R = MemRegistrar;
  Sound = Consistent;
  register_op = register;
  other_op = other_id;
  resolve = lookup;
  register_sound = λ r n c. (register-Sound r n c).0;
  other_sound = λ r s c. (other_id-Sound r s c).0;
  register_keeps = lookup-register;
  other_keeps = lookup-other_id;
  register_resolves = register_resolves;
  other_resolves = other_resolves;
}
