-- ===== src/Aggregate/Dict/Interning/Agreement.antt =====
-- dict.go, Cache: what the identifiers that it hands out resolve to.
use otelcontext.Base.{
  ℕ, ◌+◌, ◌≡◌, ◌⊎◌, refl, inl, inr, ◌||◌, Option, none, some, List, [], ◌∷◌, arith, Text,
  ℕ_discrete, Option-cases, Bool-cases, ltb, ◌==◌, length,
}
use otelcontext.Base.Map.{Map, get, put, has}
use otelcontext.Base.Map.Laws.{get-put}
use otelcontext.Aggregate.Dict.{
  DictName, Registered, minted, refused, dict_full, invalid_kind, other_name, dict_name_discrete,
}
use otelcontext.Aggregate.Dict.Interning.{
  Registrar, Cache, lookup_cached, route_other, finish, register_miss, intern_miss, intern,
  intern_found, tenant_found, tenant_name, finish_tenant, tenant_miss, intern_tenant, fence,
  unfence, value_cap,
}

module _ (reg : Registrar) where
  open reg use {R, Sound, register_op, other_op, resolve}

  -- The identifiers of a map resolve to their names.
  abbrev Meant : R → Map DictName ℕ → Type 0
  Meant r ids =
      (n : DictName) (id : ℕ) → get dict_name_discrete n ids ≡ some id → resolve r id ≡ some n

  unfoldable pub Agrees : Cache reg → Type 0
  Agrees c = Sound c.registrar × Meant c.registrar c.ids

  -- What an identifier from `Intern` may stand for.
  abbrev pub Stands : R → DictName → ℕ → Type 0
  Stands r n id = (id ≡ 0) ⊎ ((resolve r id ≡ some n) ⊎ (resolve r id ≡ some (other_name n.scope)))

  abbrev pub Interned : DictName → Cache reg × ℕ → Type 0
  Interned n (c, id) = Agrees c × Stands c.registrar n id

  abbrev pub Admitted : DictName → Cache reg × Option ℕ → Type 0
  Admitted n (c, none) = Agrees c
  Admitted n (c, some id) = Agrees c × (resolve c.registrar id ≡ some n)

  stored :
      (r : R) (n : DictName) (id : ℕ) (ids : Map DictName ℕ)
      → resolve r id ≡ some n
      → Meant r ids
      → Meant r (put dict_name_discrete n id ids)
  stored r n id ids known m k j h =
      grind (arith, h, known, get-put dict_name_discrete k n id ids, m k j)

  route_other-Interned :
      (c : Cache reg) (n : DictName) → Agrees c → Interned n (route_other reg c n.scope)
  unfolding route_other Agrees
  route_other-Interned c n (s, m) =
      let o = reg.other_resolves c.registrar n.scope s in
      (
        (
          reg.other_sound c.registrar n.scope s,
          λ k id h. reg.other_keeps c.registrar n.scope id k s (m k id h),
        ),
        elim o [ inl z ↦ inl z | inr w ↦ inr (inr w) ],
      )

  -- The registrar after a registration still knows what the cache holds.
  registered-Agrees :
      (c : Cache reg) (n : DictName)
      → Agrees c
      → Sound (register_op c.registrar n).0 × Meant (register_op c.registrar n).0 c.ids
  unfolding Agrees
  registered-Agrees c n (s, m) = (
    reg.register_sound c.registrar n s,
    λ k id h. reg.register_keeps c.registrar n id k s (m k id h),
  )

  finish-Interned :
      (c : Cache reg) (n : DictName) (r : R) (result : Registered)
      → Sound r
      → Meant r c.ids
      → ((id : ℕ) → result ≡ minted id → resolve r id ≡ some n)
      → Interned n (finish reg c n (r, result))
  unfolding finish Agrees
  finish-Interned c n r (minted id) s m known =
      ((s, stored r n id c.ids (known id refl) m), inr (inl (known id refl)))
  finish-Interned c n r (refused dict_full) s m known =
      route_other-Interned (record c { registrar = r; overflows = c.overflows + 1 }) n (s, m)
  finish-Interned c n r (refused (invalid_kind k)) s m known =
      route_other-Interned (record c { registrar = r; errors = c.errors + 1 }) n (s, m)

  intern_miss-Interned :
      (c : Cache reg) (n : DictName) → Agrees c → Interned n (intern_miss reg c n)
  unfolding intern_miss register_miss Agrees
  intern_miss-Interned c n a =
      let g = registered-Agrees c n a in
      let r = register_op c.registrar n in
      elim (Bool-cases (ltb (value_cap reg c n.scope.kind) (length n.value))) [
        | inl h ↦
            rw (h, intern_miss)
              (route_other-Interned (record c { over_length = c.over_length + 1 }) n a)
        | inr h ↦
            rw (h, intern_miss)
              (finish-Interned (record c { misses = c.misses + 1 }) n r.0 r.1 g.0 g.1
                (λ id e. reg.register_resolves c.registrar n id a.0 e))
      ]

  lookup_cached-Admitted :
      (c : Cache reg) (n : DictName) → Agrees c → Admitted n (lookup_cached reg c n)
  unfolding lookup_cached Agrees
  lookup_cached-Admitted c n a = elim (Option-cases (get dict_name_discrete n c.ids)) [
    | inl g ↦ rw (g, lookup_cached) a
    | inr (id, g) ↦ elim (Bool-cases (has ℕ_discrete id c.fenced)) [
      | inl f ↦ rw (g, lookup_cached, f) a
      | inr f ↦ rw (g, lookup_cached, f) (a, a.1 n id g)
    ]
  ]

  intern_found-Interned :
      (n : DictName) (found : Cache reg × Option ℕ)
      → Admitted n found
      → Interned n (intern_found reg n found)
  unfolding intern_found
  intern_found-Interned n (c, some id) (a, known) = (a, inr (inl known))
  intern_found-Interned n (c, none) a = intern_miss-Interned c n a

  pub intern-Interned : (c : Cache reg) (n : DictName) → Agrees c → Interned n (intern reg c n)
  unfolding intern
  intern-Interned c n a =
      intern_found-Interned n (lookup_cached reg c n) (lookup_cached-Admitted c n a)

  finish_tenant-Admitted :
      (c : Cache reg) (n : DictName) (r : R) (result : Registered)
      → Sound r
      → Meant r c.ids
      → ((id : ℕ) → result ≡ minted id → resolve r id ≡ some n)
      → Admitted n (finish_tenant reg c n (r, result))
  unfolding finish_tenant Agrees
  finish_tenant-Admitted c n r (refused e) s m known = (s, m)
  finish_tenant-Admitted c n r (minted id) s m known = elim (Bool-cases (id == 0)) [
    | inl z ↦ rw z (s, m)
    | inr z ↦ rw z ((s, stored r n id c.ids (known id refl) m), known id refl)
  ]

  tenant_miss-Admitted :
      (c : Cache reg) (name : Text)
      → Agrees c
      → Admitted (tenant_name reg name) (tenant_miss reg c name)
  unfolding tenant_miss Agrees
  tenant_miss-Admitted c name a =
      let n = tenant_name reg name in
      let g = registered-Agrees c n a in
      let r = register_op c.registrar n in
      elim (Bool-cases (length name == 0 || ltb c.max_tenant_bytes (length name))) [
        | inl h ↦ rw (h, tenant_miss) a
        | inr h ↦
            rw (h, tenant_miss)
              (finish_tenant-Admitted (record c { misses = c.misses + 1 }) n r.0 r.1 g.0 g.1
                (λ id e. reg.register_resolves c.registrar n id a.0 e))
      ]

  tenant_found-Admitted :
      (name : Text) (found : Cache reg × Option ℕ)
      → Admitted (tenant_name reg name) found
      → Admitted (tenant_name reg name) (tenant_found reg name found)
  unfolding tenant_found
  tenant_found-Admitted name (c, some id) a = a
  tenant_found-Admitted name (c, none) a = tenant_miss-Admitted c name a

  pub intern_tenant-Admitted :
      (c : Cache reg) (name : Text)
      → Agrees c
      → Admitted (tenant_name reg name) (intern_tenant reg c name)
  unfolding intern_tenant
  intern_tenant-Admitted c name a =
      tenant_found-Admitted name (lookup_cached reg c (tenant_name reg name))
        (lookup_cached-Admitted c (tenant_name reg name) a)

  fence-Agrees : (c : Cache reg) (ids : List ℕ) → Agrees c → Agrees (fence reg c ids)
  unfolding fence Agrees
  fence-Agrees c [] a = a
  fence-Agrees c (id ∷ ids) a =
      fence-Agrees (record c { fenced = put ℕ_discrete id tt c.fenced }) ids a

  pub data Call : Type 0 where
    ask : DictName → Call
    ask_tenant : Text → Call
    start_fence : List ℕ → Call
    end_fence : Call

  pub call : Cache reg → Call → Cache reg
  call c (ask n) = (intern reg c n).0
  call c (ask_tenant name) = (intern_tenant reg c name).0
  call c (start_fence ids) = fence reg c ids
  call c end_fence = unfence reg c

  unfoldable pub calls : Cache reg → List Call → Cache reg
  calls c [] = c
  calls c (x ∷ xs) = calls (call c x) xs

  Admitted-Agrees : (n : DictName) (x : Cache reg × Option ℕ) → Admitted n x → Agrees x.0
  Admitted-Agrees n (c, none) a = a
  Admitted-Agrees n (c, some id) a = a.0

  call-Agrees : (c : Cache reg) (x : Call) → Agrees c → Agrees (call c x)
  unfolding call unfence Agrees
  call-Agrees c (ask n) a = (intern-Interned c n a).0
  call-Agrees c (ask_tenant name) a =
      Admitted-Agrees (tenant_name reg name) (intern_tenant reg c name)
        (intern_tenant-Admitted c name a)
  call-Agrees c (start_fence ids) a = fence-Agrees c ids a
  call-Agrees c end_fence a = a

  calls-Agrees : (c : Cache reg) (xs : List Call) → Agrees c → Agrees (calls c xs)
  unfolding calls
  calls-Agrees c [] a = a
  calls-Agrees c (x ∷ xs) a = calls-Agrees (call c x) xs (call-Agrees c x a)

  -- After any history on a cache that agrees with its registrar, `Intern` returns 0, or an
  -- identifier of the asked name, or one of the overflow entry of its namespace.
  pub interned_resolves :
      (c : Cache reg) (xs : List Call) (n : DictName)
      → Agrees c
      → Stands (intern reg (calls c xs) n).0.registrar n (intern reg (calls c xs) n).1
  interned_resolves c xs n a = (intern-Interned (calls c xs) n (calls-Agrees c xs a)).1

  abbrev value_of : Option DictName → Text
  value_of none = []
  value_of (some n) = n.value
