-- ===== src/Aggregate/Dict/Tests.antt =====
-- dict.go: a cap of one service per tenant, a second service, and a tenant.
use otelcontext.Base.{
  ℕ, text_discrete, ◌+◌, replicate, ◌≤◌, ◌≡◌, Text, refl, some, [], ◌∷◌, arith, text, ℕ_discrete,
}
use otelcontext.Base.Map.{Map, get, put}
use otelcontext.Aggregate.Dict.{
  DictScope, DictName, new_registrar, register, register_new, lookup, kind_valid, other_id,
  other_new, mint_next, dict_name_discrete, dict_scope_discrete, other_value, at_capacity,
  exhausted,
}
use otelcontext.Aggregate.Dict.History.{ask, ask_other, calls, after, registered_resolves}
use otelcontext.Aggregate.Dict.Capacity.{entries, entries_bounded}
use otelcontext.Aggregate.Dict.Interning.{
  Cache, intern, intern_found, intern_miss, value_cap, route_other, finish, register_miss,
  intern_tenant, tenant_name, tenant_found, tenant_miss, finish_tenant, lookup_cached,
}
use otelcontext.Aggregate.Dict.Interning.Agreement
use otelcontext.Aggregate.Dict.Interning.Agreement.{Stands, interned_resolves}
use otelcontext.Aggregate.Dict.Interning.Memory.{mem_registrar}

abbrev services : DictScope
services = record { tenant = 7; kind = 2 }

abbrev cart : DictName
cart = record { scope = services; value = text "cart" }

abbrev shop : DictName
shop = record { scope = services; value = text "shop" }

abbrev limits : Map ℕ ℕ
limits = (2, 1) ∷ []

registered_resolves_example :
    lookup (after limits [] cart (ask shop ∷ ask_other services ∷ [])) 1 ≡ some cart
unfolding register register_new new_registrar get kind_valid at_capacity exhausted calls ℕ_discrete
registered_resolves_example =
    registered_resolves limits [] cart 1 (ask shop ∷ ask_other services ∷ []) refl

entries_bounded_example :
    entries services (calls (new_registrar limits) (ask cart ∷ ask shop ∷ [])) ≤ 1 + 1
unfolding get ℕ_discrete
entries_bounded_example = entries_bounded limits services (ask cart ∷ ask shop ∷ []) (omega arith)

abbrev empty_cache : Cache mem_registrar
empty_cache = record {
  registrar = record { next = 1; limits = limits; ids = []; counts = []; other = []; by_id = [] };
  max_value_bytes = 512;
  max_tenant_bytes = 128;
  ids = [];
  fenced = [];
  hits = 0;
  misses = 0;
  overflows = 0;
  errors = 0;
  over_length = 0;
  tenants_rejected = 0;
  fenced_hits = 0;
}

abbrev acme : Text
acme = text "acme"

-- A tenant name that is too long is interned as the overflow entry of the tenants, and the tenant
-- `__other__` is then given its identifier.
abbrev narrow : Cache mem_registrar
narrow = record empty_cache { max_tenant_bytes = 9 }

other_tenant_shared :
    let c = (intern mem_registrar narrow (tenant_name mem_registrar (replicate 10 97))).0 in
    ((intern mem_registrar narrow (tenant_name mem_registrar (replicate 10 97))).1 ≡ 1)
    × ((intern_tenant mem_registrar c other_value).1 ≡ some 1)
unfolding intern intern_found intern_miss intern_tenant tenant_found tenant_miss finish_tenant
    lookup_cached value_cap route_other finish register_miss register register_new other_id
    other_new get put kind_valid at_capacity exhausted ℕ_discrete mint_next dict_name_discrete
    dict_scope_discrete text_discrete
other_tenant_shared = (refl, refl)
