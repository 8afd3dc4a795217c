-- ===== src/Aggregate/Dict/Capacity.antt =====
-- dict.go, MemRegistrar: how many identifiers a namespace gets under its cap.
use otelcontext.Base.{
  ℕ, ◌+◌, ◌≤◌, ◌<◌, ◌≡◌, refl, inl, inr, List, [], ◌∷◌, arith, bit, dec_bool, ℕ_discrete,
  Option-cases, Bool-cases, ltb, leb, ◌&&◌, true, false, subst,
}
use otelcontext.Base.Map.{Map, get, at, has}
use otelcontext.Base.Map.Laws.{get-put}
use otelcontext.Base.Map.Counters.{at-incr}
use otelcontext.Base.Map.Weigh.{weigh, weigh-put-le}
use otelcontext.Aggregate.Dict.{
  DictScope, DictName, MemRegistrar, new_registrar, mint_next, register_new, register, other_new,
  other_id, other_name, exhausted, at_capacity, dict_name_discrete, dict_scope_discrete, kind_valid,
}
use otelcontext.Aggregate.Dict.History.{Call, ask, ask_other, call, calls}

-- Whether a name is of a namespace.
abbrev in_scope : DictScope → DictName → ℕ
in_scope s n = bit (dec_bool (dict_scope_discrete n.scope s))

-- The identifiers that stand for names of a namespace.
abbrev pub entries : DictScope → MemRegistrar → ℕ
entries s r = weigh (in_scope s) r.by_id

-- The caps are fixed, and the entries of a namespace are its counted ones and its overflow entry.
abbrev Bounded : Map ℕ ℕ → DictScope → MemRegistrar → Type 0
Bounded limits s r =
    (r.limits ≡ limits)
    × (at dict_scope_discrete s r.counts ≤ at ℕ_discrete s.kind limits)
    × (entries s r ≤ at dict_scope_discrete s r.counts + bit (has dict_scope_discrete s r.other))

room_for :
    (limits : Map ℕ ℕ) (s : DictScope) (r : MemRegistrar) (n : DictName)
    → r.limits ≡ limits
    → at_capacity r n.scope ≡ false
    → dec_bool (dict_scope_discrete n.scope s) ≡ true
    → (ltb 0 (at ℕ_discrete s.kind limits)
        && leb (at ℕ_discrete s.kind limits) (at dict_scope_discrete s r.counts))
      ≡ false
unfolding at_capacity
room_for limits s r n same h =
    elim (dict_scope_discrete n.scope s)
      as (λ d.
        dec_bool d ≡ true
        → (ltb 0 (at ℕ_discrete s.kind limits)
            && leb (at ℕ_discrete s.kind limits) (at dict_scope_discrete s r.counts))
          ≡ false) [
            | yes e ↦ λ _.
                subst
                  (λ m.
                    ltb 0 (at ℕ_discrete s.kind m)
                      && leb (at ℕ_discrete s.kind m) (at dict_scope_discrete s r.counts)
                    ≡ false)
                  same (subst (λ t. at_capacity r t ≡ false) e h)
            | no q ↦ λ e. absurd (cc)
          ]

register_new-Bounded :
    (limits : Map ℕ ℕ) (s : DictScope) (r : MemRegistrar) (n : DictName)
    → 0 < at ℕ_discrete s.kind limits
    → Bounded limits s r
    → Bounded limits s (register_new r n).0
unfolding register_new mint_next
register_new-Bounded limits s r n pos b = elim (Bool-cases (at_capacity r n.scope)) [
  | inl h ↦ rw h b
  | inr h ↦ elim (Bool-cases (exhausted r)) [
    | inl x ↦ rw (h, x) b
    | inr x ↦
        rw (h, x)
          (let room = room_for limits s r n b.0 h in
            let counted = at-incr dict_scope_discrete s n.scope r.counts in
            let entered = weigh-put-le ℕ_discrete (in_scope s) r.next n r.by_id in
            (b.0, ground (arith, room, pos), ground (arith)))
  ]
]

register-Bounded :
    (limits : Map ℕ ℕ) (s : DictScope) (r : MemRegistrar) (n : DictName)
    → 0 < at ℕ_discrete s.kind limits
    → Bounded limits s r
    → Bounded limits s (register r n).0
unfolding register
register-Bounded limits s r n pos b =
    let new = register_new-Bounded limits s r n pos b in
    elim (Bool-cases (kind_valid n.scope.kind)) [
      | inr h ↦ rw (h, register) b
      | inl h ↦ elim (Option-cases (get dict_name_discrete n r.ids)) [
        | inl g ↦ rw (h, register, g) new
        | inr (id, g) ↦ rw (h, register, g) b
      ]
    ]

other_id-Bounded :
    (limits : Map ℕ ℕ) (s : DictScope) (r : MemRegistrar) (t : DictScope)
    → Bounded limits s r
    → Bounded limits s (other_id r t).0
unfolding other_id other_new mint_next
other_id-Bounded limits s r t b = elim (Option-cases (get dict_scope_discrete t r.other)) [
  | inr (id, g) ↦ rw (g, other_id) b
  | inl g ↦ elim (Bool-cases (exhausted r)) [
    | inl x ↦ rw (g, other_id, x, other_new) b
    | inr x ↦
        rw (g, other_id, x, other_new)
          (let entered = weigh-put-le ℕ_discrete (in_scope s) r.next (other_name t) r.by_id in
            let opened = get-put dict_scope_discrete s t r.next r.other in (b.0, b.1, ground arith))
  ]
]

call-Bounded :
    (limits : Map ℕ ℕ) (s : DictScope) (r : MemRegistrar) (c : Call)
    → 0 < at ℕ_discrete s.kind limits
    → Bounded limits s r
    → Bounded limits s (call r c)
unfolding call
call-Bounded limits s r (ask n) pos b = register-Bounded limits s r n pos b
call-Bounded limits s r (ask_other t) pos b = other_id-Bounded limits s r t b

calls-Bounded :
    (limits : Map ℕ ℕ) (s : DictScope) (r : MemRegistrar) (cs : List Call)
    → 0 < at ℕ_discrete s.kind limits
    → Bounded limits s r
    → Bounded limits s (calls r cs)
unfolding calls
calls-Bounded limits s r [] pos b = b
calls-Bounded limits s r (c ∷ cs) pos b =
    calls-Bounded limits s (call r c) cs pos (call-Bounded limits s r c pos b)

-- After any history, with an enabled cap on a kind, the identifiers that stand for names of one
-- tenant's namespace of it are at most as many as the cap, and one more for the overflow entry.
pub entries_bounded :
    (limits : Map ℕ ℕ) (s : DictScope) (cs : List Call)
    → 0 < at ℕ_discrete s.kind limits
    → entries s (calls (new_registrar limits) cs) ≤ at ℕ_discrete s.kind limits + 1
unfolding new_registrar get weigh
entries_bounded limits s cs pos =
    let b = calls-Bounded limits s (new_registrar limits) cs pos (refl, omega arith, omega arith) in
    ground arith
