-- ===== src/Aggregate/Dict/Interning.antt =====
-- dict.go, Cache: the map in front of a registrar. A miss calls the registrar without a lock: a
-- lookup and a registration are separate steps of a history.
pub mod Agreement
pub mod Memory
use otelcontext.Base.{
  ℕ, ◌+◌, ◌≡◌, ◌⊎◌, refl, ◌∙◌, sym, ap, subst, inl, inr, Bool, true, false, not, ◌&&◌, ◌||◌, Option,
  none, some, List, [], ◌∷◌, arith, Text, text_discrete, ℕ_discrete, Option-cases, Bool-cases,
  if◌then◌else◌, ltb, ◌==◌, length,
}
use otelcontext.Base.Map.{Map, get, put, delete, has}
use otelcontext.Base.Map.Laws.{get-put}
use otelcontext.Aggregate.Dict.{
  DictScope, DictName, MemRegistrar, Registered, minted, refused, DictError, dict_full,
  invalid_kind, other_value, other_name, dict_name_discrete, kind_tenant, global_tenant, lookup,
  register, other_id,
}

-- The interface `Registrar`, with the reverse lookup of `Resolver`. `Sound` is what a registrar
-- keeps of itself, `resolve` the meaning of an identifier.
pub record Registrar : Type 1 where
  pub R : Type 0
  pub Sound : R → Type 0
  pub register_op : R → DictName → R × Registered
  pub other_op : R → DictScope → R × ℕ
  pub resolve : R → ℕ → Option DictName
  pub register_sound : (r : R) (n : DictName) → Sound r → Sound (register_op r n).0
  pub other_sound : (r : R) (s : DictScope) → Sound r → Sound (other_op r s).0
  pub register_keeps :
      (r : R) (n : DictName) (id : ℕ) (m : DictName)
      → Sound r
      → resolve r id ≡ some m
      → resolve (register_op r n).0 id ≡ some m
  pub other_keeps :
      (r : R) (s : DictScope) (id : ℕ) (m : DictName)
      → Sound r
      → resolve r id ≡ some m
      → resolve (other_op r s).0 id ≡ some m
  pub register_resolves :
      (r : R) (n : DictName) (id : ℕ)
      → Sound r
      → (register_op r n).1 ≡ minted id
      → resolve (register_op r n).0 id ≡ some n
  pub other_resolves :
      (r : R) (s : DictScope)
      → Sound r
      → ((other_op r s).1 ≡ 0) ⊎ (resolve (other_op r s).0 (other_op r s).1 ≡ some (other_name s))

module _ (reg : Registrar) where
  open reg use {R, register_op, other_op, resolve}

  pub record Cache : Type 0 where
    pub registrar : R
    pub max_value_bytes : ℕ
    pub max_tenant_bytes : ℕ
    pub ids : Map DictName ℕ
    pub fenced : Map ℕ (Unit {0})
    pub hits : ℕ
    pub misses : ℕ
    pub overflows : ℕ
    pub errors : ℕ
    pub over_length : ℕ
    pub tenants_rejected : ℕ
    pub fenced_hits : ℕ

  unfoldable pub value_cap : Cache → ℕ → ℕ
  value_cap c kind = if kind == kind_tenant then c.max_tenant_bytes else c.max_value_bytes

  -- A cached identifier that no barrier has fenced.
  unfoldable pub lookup_cached : Cache → DictName → Cache × Option ℕ
  lookup_cached c n = elim (get dict_name_discrete n c.ids) [
    | none ↦ (c, none)
    | some id ↦
        if has ℕ_discrete id c.fenced
        then (record c { fenced_hits = c.fenced_hits + 1 }, none)
        else (record c { hits = c.hits + 1 }, some id)
  ]

  -- The overflow identifier of the scope.
  unfoldable pub route_other : Cache → DictScope → Cache × ℕ
  route_other c s = let r = other_op c.registrar s in (record c { registrar = r.0 }, r.1)

  abbrev pub count_error : Cache → DictError → Cache
  count_error c dict_full = record c { overflows = c.overflows + 1 }
  count_error c (invalid_kind k) = record c { errors = c.errors + 1 }

  -- The store of a registered identifier, and the fallback for a refused one.
  unfoldable pub finish : Cache → DictName → R × Registered → Cache × ℕ
  finish c n (r, minted id) =
      (record c { registrar = r; ids = put dict_name_discrete n id c.ids }, id)
  finish c n (r, refused e) = route_other (count_error (record c { registrar = r }) e) n.scope

  unfoldable pub register_miss : Cache → DictName → Cache × ℕ
  register_miss c n = finish (record c { misses = c.misses + 1 }) n (register_op c.registrar n)

  unfoldable pub intern_miss : Cache → DictName → Cache × ℕ
  intern_miss c n =
      if ltb (value_cap c n.scope.kind) (length n.value)
      then route_other (record c { over_length = c.over_length + 1 }) n.scope
      else register_miss c n

  unfoldable pub intern_found : DictName → Cache × Option ℕ → Cache × ℕ
  intern_found n (c, some id) = (c, id)
  intern_found n (c, none) = intern_miss c n

  -- `Intern` and `InternBytes`.
  unfoldable pub intern : Cache → DictName → Cache × ℕ
  intern c n = intern_found n (lookup_cached c n)

  abbrev pub tenant_name : Text → DictName
  tenant_name name = record {
    scope = record { tenant = global_tenant; kind = kind_tenant };
    value = name;
  }

  abbrev pub reject_tenant : Cache → Cache × Option ℕ
  reject_tenant c = (record c { tenants_rejected = c.tenants_rejected + 1 }, none)

  unfoldable pub finish_tenant : Cache → DictName → R × Registered → Cache × Option ℕ
  finish_tenant c n (r, refused e) = reject_tenant (record c { registrar = r })
  finish_tenant c n (r, minted id) =
      if id == 0
      then reject_tenant (record c { registrar = r })
      else (record c { registrar = r; ids = put dict_name_discrete n id c.ids }, some id)

  unfoldable pub tenant_miss : Cache → Text → Cache × Option ℕ
  tenant_miss c name =
      if length name == 0 || ltb c.max_tenant_bytes (length name)
      then reject_tenant c
      else finish_tenant (record c { misses = c.misses + 1 }) (tenant_name name)
          (register_op c.registrar (tenant_name name))

  unfoldable pub tenant_found : Text → Cache × Option ℕ → Cache × Option ℕ
  tenant_found name (c, some id) = (c, some id)
  tenant_found name (c, none) = tenant_miss c name

  unfoldable pub intern_tenant : Cache → Text → Cache × Option ℕ
  intern_tenant c name = tenant_found name (lookup_cached c (tenant_name name))

  -- `Fence` over a list of identifiers, `Unfence`, and the part of `Forget` that reads change by.
  unfoldable pub fence : Cache → List ℕ → Cache
  fence c [] = c
  fence c (id ∷ ids) = fence (record c { fenced = put ℕ_discrete id tt c.fenced }) ids

  unfoldable pub unfence : Cache → Cache
  unfence c = record c { fenced = [] }

  unfoldable pub forget_ids : Map ℕ (Unit {0}) → Map DictName ℕ → Map DictName ℕ
  forget_ids gone [] = []
  forget_ids gone ((n, id) ∷ m) =
      let rest = forget_ids gone m in if has ℕ_discrete id gone then rest else (n, id) ∷ rest

  unfoldable pub forget : Cache → Map ℕ (Unit {0}) → Cache
  forget c gone = record c { ids = forget_ids gone c.ids }
