-- ===== src/Aggregate/Dict.antt =====
-- internal/aggregate/dict.go: the in-memory registrar of identities and the cache in front of it.
-- A Go map of maps, keyed by scope and then by value, is one map keyed by both: an inner map that
-- is missing reads as an empty one. The cache takes any registrar with the laws of `Registrar`,
-- which MemRegistrar's theorems fill.
pub mod Registry
pub mod History
pub mod Capacity
pub mod Interning
mod Tests
use otelcontext.Base.{
  ℕ, ◌+◌, Bool, true, false, not, ◌&&◌, ◌||◌, Option, none, some, List, [], ◌∷◌, ltb, leb, ◌==◌,
  if◌then◌else◌, Text, text, text_discrete, ℕ_discrete, length,
}
use otelcontext.Base.Map.{Map, get, put, delete, at, incr, has}

-- KindTenant; the kinds are the numbers from 1 to `kind_max`.
abbrev pub kind_tenant : ℕ
kind_tenant = 1

abbrev pub kind_max : ℕ
kind_max = 8

unfoldable pub kind_valid : ℕ → Bool
kind_valid k = leb 1 k && leb k kind_max

abbrev pub global_tenant : ℕ
global_tenant = 0

abbrev pub other_value : Text
other_value = text "__other__"

pub record DictScope : Type 0 where
  pub tenant : ℕ
  pub kind : ℕ

unfoldable pub dict_scope_discrete : Discrete DictScope
unfolding ℕ_discrete
dict_scope_discrete = hlevel ℕ_discrete

-- A value in its namespace.
pub record DictName : Type 0 where
  pub scope : DictScope
  pub value : Text

unfoldable pub dict_name_discrete : Discrete DictName
dict_name_discrete = hlevel (dict_scope_discrete, text_discrete)

pub data DictError : Type 0 where
  invalid_kind : ℕ → DictError
  dict_full : DictError

pub data Registered : Type 0 where
  minted : ℕ → Registered
  refused : DictError → Registered

abbrev max_uint32 : ℕ
max_uint32 = 4294967295

-- An entry of `byID` without its own identifier, which is the key.
pub record MemRegistrar : Type 0 where
  pub next : ℕ
  pub limits : Map ℕ ℕ
  pub ids : Map DictName ℕ
  pub counts : Map DictScope ℕ
  pub other : Map DictScope ℕ
  pub by_id : Map ℕ DictName

unfoldable pub new_registrar : Map ℕ ℕ → MemRegistrar
new_registrar limits = record {
  next = 1;
  limits = limits;
  ids = [];
  counts = [];
  other = [];
  by_id = [];
}

-- The state in which `mintLocked` leaves the maps, if the identifiers are not used up.
unfoldable pub mint_next : MemRegistrar → DictName → MemRegistrar
mint_next r n = record r {
  next = r.next + 1;
  ids = put dict_name_discrete n r.next r.ids;
  by_id = put ℕ_discrete r.next n r.by_id;
}

unfoldable pub exhausted : MemRegistrar → Bool
exhausted r = r.next == max_uint32

-- `limit, ok := r.limits[kind]; ok && limit > 0 && r.counts[scope] >= limit`; a limit is not
-- negative.
unfoldable pub at_capacity : MemRegistrar → DictScope → Bool
at_capacity r scope =
    let limit = at ℕ_discrete scope.kind r.limits in
    ltb 0 limit && leb limit (at dict_scope_discrete scope r.counts)

unfoldable pub register_new : MemRegistrar → DictName → MemRegistrar × Registered
register_new r n =
    if at_capacity r n.scope
    then (r, refused dict_full)
    else if exhausted r
    then (r, refused dict_full)
    else (
      record (mint_next r n) { counts = incr dict_scope_discrete n.scope r.counts },
      minted r.next,
    )

unfoldable pub register : MemRegistrar → DictName → MemRegistrar × Registered
register r n =
    if not (kind_valid n.scope.kind)
    then (r, refused (invalid_kind n.scope.kind))
    else elim (get dict_name_discrete n r.ids) [
      | some id ↦ (r, minted id)
      | none ↦ register_new r n
    ]

abbrev pub other_name : DictScope → DictName
other_name scope = record { scope = scope; value = other_value }

unfoldable pub other_new : MemRegistrar → DictScope → MemRegistrar × ℕ
other_new r scope = if exhausted r then (r, 0) else (
  record (mint_next r (other_name scope)) { other = put dict_scope_discrete scope r.next r.other },
  r.next,
)

unfoldable pub other_id : MemRegistrar → DictScope → MemRegistrar × ℕ
other_id r scope = elim (get dict_scope_discrete scope r.other) [
  | some id ↦ (r, id)
  | none ↦ other_new r scope
]

-- `Lookup`, the reverse of a registration.
unfoldable pub lookup : MemRegistrar → ℕ → Option DictName
lookup r id = get ℕ_discrete id r.by_id

unfoldable pub find_id : MemRegistrar → DictName → Option ℕ
find_id r n = get dict_name_discrete n r.ids
