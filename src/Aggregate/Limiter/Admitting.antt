-- ===== src/Aggregate/Limiter/Admitting.antt =====
-- cardinality.go: what `Admit` returns and records, on each of its branches.
pub mod Presence
use otelcontext.Base.{
  ℕ, ◌<◌, ◌≡◌, refl, sym, ◌⊎◌, inl, inr, Bool, true, false, none, some, arith, Float64,
  Option-cases, dec_lt, Bool-cases,
}
use otelcontext.Base.Map.{get, at}
use otelcontext.Base.Map.Laws.{get-put_self}
use otelcontext.Aggregate.Key.{SeriesKey, key_discrete}
use otelcontext.Aggregate.Budget.{OverflowReason, overflow_key}
use otelcontext.Aggregate.Limiter.{
  Limiter, Admission, window_key, window_key_discrete, mark, charge, reserve, add, is_present,
  admit_overflow, admitted, count_overflow, route_overflow, admit, check,
}
use otelcontext.Aggregate.Limiter.Census.{Census, add-Census}

module _ (fl : Float64) (l : Limiter fl) (key : SeriesKey) (window : ℕ) where
  absent_of_false :
      is_present fl l key window ≡ false
      → get window_key_discrete (window_key fl key window) l.present ≡ none
  unfolding is_present
  absent_of_false h = ground arith

  pub admit_present :
      is_present fl l key window ≡ true → admit fl l key window ≡ (l, admitted fl key false)
  unfolding admit
  admit_present h = rw h

  pub admit_active :
      is_present fl l key window ≡ false
      → 0 < at key_discrete key l.windows
      → admit fl l key window ≡ (add fl l key window false, admitted fl key true)
  unfolding admit
  admit_active h a = ground arith

  pub admit_within :
      is_present fl l key window ≡ false
      → at key_discrete key l.windows ≡ 0
      → check fl l key ≡ none
      → admit fl l key window ≡ (add fl l key window false, admitted fl key true)
  unfolding admit
  admit_within h a e = ground arith

  pub admit_over :
      (r : OverflowReason)
      → is_present fl l key window ≡ false
      → at key_discrete key l.windows ≡ 0
      → check fl l key ≡ some r
      → admit fl l key window ≡ route_overflow fl l key window r
  unfolding admit
  admit_over r h a e = ground arith

-- A rule for what `Admit` leaves behind: four branches, of which three add at most one presence.
module _ {ℓ} (fl : Float64) (l : Limiter fl) (key : SeriesKey) (window : ℕ)
    (P : Limiter fl × Admission fl → Type ℓ) where
  pub admit_cases :
      (is_present fl l key window ≡ true → P (l, admitted fl key false))
      → (is_present fl l key window ≡ false
          → (0 < at key_discrete key l.windows) ⊎ (check fl l key ≡ none)
          → P (add fl l key window false, admitted fl key true))
      → ((r : OverflowReason) → check fl l key ≡ some r → P (route_overflow fl l key window r))
      → P (admit fl l key window)
  admit_cases there fresh over = elim (Bool-cases (is_present fl l key window)) [
    | inl h ↦ rw (admit_present fl l key window h) (there h)
    | inr h ↦ elim (dec_lt 0 (at key_discrete key l.windows)) [
      | yes a ↦ rw (admit_active fl l key window h a) (fresh h (inl a))
      | no a ↦ elim (Option-cases (check fl l key)) [
        | inl e ↦ rw (admit_within fl l key window h (omega arith) e) (fresh h (inr e))
        | inr (r, e) ↦ rw (admit_over fl l key window r h (omega arith) e) (over r e)
      ]
    ]
  ]

module _ (fl : Float64) (l : Limiter fl) (key : SeriesKey) (window : ℕ) where
  pub present-mark : is_present fl (mark fl l key window) key window ≡ true
  unfolding is_present mark
  present-mark =
      ground (arith, get-put_self window_key_discrete (window_key fl key window) tt l.present)

  pub present-add : (b : Bool) → is_present fl (add fl l key window b) key window ≡ true
  unfolding add reserve charge is_present
  present-add b = ground (arith, present-mark)

  count_overflow-Census : (r : OverflowReason) → Census fl l → Census fl (count_overflow fl l r)
  unfolding count_overflow
  count_overflow-Census r c = record {
    present_distinct = c.present_distinct;
    windows_distinct = c.windows_distinct;
    held = c.held;
    positive = c.positive;
    active = c.active;
    total = c.total;
    by_signal = c.by_signal;
    by_service = c.by_service;
    by_tenant = c.by_tenant;
  }

  pub admit_overflow-Census : Census fl l → Census fl (admit_overflow fl l key window).0
  unfolding admit_overflow
  admit_overflow-Census c = elim (Bool-cases (is_present fl l key window)) [
    | inl h ↦ rw h c
    | inr h ↦ rw h (add-Census fl l key window c (absent_of_false fl l key window h) true)
  ]

-- `Admit` keeps the census.
pub admit-Census :
    (fl : Float64) (l : Limiter fl) (key : SeriesKey) (window : ℕ)
    → Census fl l
    → Census fl (admit fl l key window).0
unfolding route_overflow
admit-Census fl l key window c =
    admit_cases fl l key window (λ r. Census fl r.0) (λ _. c)
      (λ h _. add-Census fl l key window c (absent_of_false fl l key window h) false)
      (λ r _.
        admit_overflow-Census fl (count_overflow fl l r) (overflow_key fl l.cfg key) window
          (count_overflow-Census fl l key window r c))

present-admit_overflow :
    (fl : Float64) (l : Limiter fl) (key : SeriesKey) (window : ℕ)
    → is_present fl (admit_overflow fl l key window).0 key window ≡ true
unfolding admit_overflow
present-admit_overflow fl l key window = ground (arith, present-add fl l key window true)

-- What a call of `Admit` has recorded: the key itself, or the overflow series that stands for it.
abbrev pub Recorded :
    (fl : Float64) → Limiter fl → SeriesKey → ℕ → Limiter fl × Admission fl → Type 0
Recorded fl l key window (l', a) =
    (is_present fl l' a.key window ≡ true)
    × (((a.overflowed ≡ false) × (a.key ≡ key))
        ⊎ ((a.overflowed ≡ true)
            × (a.key ≡ overflow_key fl l.cfg key)
            × (a.reason ≡ check fl l key)
            × (a.key.tenant_id ≡ key.tenant_id)
            × (a.key.service_id ≡ key.service_id)
            × (a.key.signal ≡ key.signal)
            × (a.key.status_class ≡ key.status_class)))

-- Nothing is refused: whatever `Admit` returns is present in the window afterwards, and it is the
-- key itself or, with the cap that was hit as the reason, the overflow series of its tenant,
-- service, signal and status class.
pub admit-Recorded :
    (fl : Float64) (l : Limiter fl) (key : SeriesKey) (window : ℕ)
    → Recorded fl l key window (admit fl l key window)
unfolding route_overflow overflow_key
admit-Recorded fl l key window =
    admit_cases fl l key window (Recorded fl l key window) (λ h. (h, inl (refl, refl)))
      (λ h _. (present-add fl l key window false, inl (refl, refl)))
      (λ r e. (
        present-admit_overflow fl (count_overflow fl l r) (overflow_key fl l.cfg key) window,
        inr (refl, refl, sym e, refl, refl, refl, refl),
      ))
