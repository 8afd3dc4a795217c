-- ===== src/Aggregate/Limiter/Admitting/Presence.antt =====
-- cardinality.go: which series `Admit` and `Release` leave present, and in which windows.
use otelcontext.Base.{
  ℕ, ◌≡◌, refl, Bool, true, false, not, ◌&&◌, ◌||◌, arith, dec_bool, Float64, Bool-cases, inl, inr,
}
use otelcontext.Base.Map.{Map, get, put, delete, has}
use otelcontext.Base.Map.Laws.{get-put, get-delete}
use otelcontext.Aggregate.Key.{SeriesKey}
use otelcontext.Aggregate.Budget.{LimiterConfig, OverflowReason, overflow_key}
use otelcontext.Aggregate.Limiter.{
  Limiter, new_limiter, Admission, SeriesWindowKey, window_key_discrete, window_key, mark, charge,
  reserve, add, is_present, admit_overflow, count_overflow, route_overflow, admit, unmark, retire,
  discharge, unreserve, release,
}
use otelcontext.Aggregate.Limiter.Admitting.{admit_cases, present-add}

-- Whether two series and windows are the same.
abbrev pub same : SeriesWindowKey → SeriesWindowKey → Bool
same j k = dec_bool (window_key_discrete j k)

pub path_of_same : (j k : SeriesWindowKey) → same j k ≡ true → j ≡ k
path_of_same j k h =
    elim (window_key_discrete j k) as (λ d. dec_bool d ≡ true → j ≡ k) [
      | yes e ↦ λ _. e
      | no n ↦ λ e. absurd (cc)
    ]
      h

module _ {V : Type 0} where
  pub has-put :
      (j k : SeriesWindowKey) (v : V) (m : Map SeriesWindowKey V)
      → has window_key_discrete j (put window_key_discrete k v m)
        ≡ has window_key_discrete j m || same k j
  has-put j k v m = ground (arith, get-put window_key_discrete j k v m)

  pub has-delete :
      (j k : SeriesWindowKey) (m : Map SeriesWindowKey V)
      → has window_key_discrete j (delete window_key_discrete k m)
        ≡ has window_key_discrete j m && not (same k j)
  has-delete j k m = ground (arith, get-delete window_key_discrete j k m)

module _ (fl : Float64) where
  -- The limiter holds the series as present in the window.
  abbrev pub holds : Limiter fl → SeriesWindowKey → Bool
  holds l k = is_present fl l k.key k.window_start

  pub holds-new_limiter :
      (cfg : LimiterConfig fl) (k : SeriesWindowKey) → holds (new_limiter fl cfg) k ≡ false
  unfolding new_limiter is_present get
  holds-new_limiter cfg k = refl

  holds-add :
      (l : Limiter fl) (key : SeriesKey) (window : ℕ) (b : Bool) (k : SeriesWindowKey)
      → holds (add fl l key window b) k ≡ holds l k || same (window_key fl key window) k
  unfolding add reserve charge mark is_present
  holds-add l key window b k = ground (arith, has-put k (window_key fl key window) tt l.present)

  pub holds-release :
      (l : Limiter fl) (j k : SeriesWindowKey)
      → holds (release fl l j.key j.window_start) k ≡ holds l k && not (same j k)
  unfolding release unmark retire discharge unreserve is_present
  holds-release l j k = ground (arith, has-delete k j l.present)

  -- What `Admit` leaves present: what was, and where it reserved one the series that it returns,
  -- which was absent until then.
  abbrev Resolved : Limiter fl → ℕ → SeriesWindowKey → Limiter fl × Admission fl → Type 0
  Resolved l window k (l', a) =
      (holds l' k ≡ holds l k || (a.reserved && same (window_key fl a.key window) k))
      × (holds l' (window_key fl a.key window) ≡ true)
      × (a.reserved ≡ true → holds l (window_key fl a.key window) ≡ false)

  admit_overflow-Resolved :
      (l : Limiter fl) (other : SeriesKey) (window : ℕ) (k : SeriesWindowKey)
      → let r = admit_overflow fl l other window in
        (holds r.0 k ≡ holds l k || (r.1 && same (window_key fl other window) k))
        × (holds r.0 (window_key fl other window) ≡ true)
        × (r.1 ≡ true → holds l (window_key fl other window) ≡ false)
  unfolding admit_overflow
  admit_overflow-Resolved l other window k = elim (Bool-cases (is_present fl l other window)) [
    | inl h ↦ rw h (ground arith, h, λ e. absurd (cc))
    | inr h ↦ rw h (holds-add l other window true k, present-add fl l other window true, λ _. refl)
  ]

  overflow-Resolved :
      (l : Limiter fl) (key : SeriesKey) (window : ℕ) (r : OverflowReason) (k : SeriesWindowKey)
      → Resolved l window k (route_overflow fl l key window r)
  unfolding route_overflow count_overflow is_present
  overflow-Resolved l key window r k =
      admit_overflow-Resolved (count_overflow fl l r) (overflow_key fl l.cfg key) window k

  pub admit-Resolved :
      (l : Limiter fl) (key : SeriesKey) (window : ℕ) (k : SeriesWindowKey)
      → Resolved l window k (admit fl l key window)
  admit-Resolved l key window k =
      admit_cases fl l key window (Resolved l window k) (λ h. (ground arith, h, λ e. absurd (cc)))
        (λ h _. (holds-add l key window false k, present-add fl l key window false, λ _. h))
        (λ r _. overflow-Resolved l key window r k)
