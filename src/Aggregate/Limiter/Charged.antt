-- ===== src/Aggregate/Limiter/Charged.antt =====
-- cardinality.go: the series that the budget pays for, as a count over the census of windows, and
-- how that count moves when a series enters or leaves the census.
use otelcontext.Base.{ℕ, ◌+◌, ◌≡◌, Bool, ◌&&◌, not, none, some, arith, bit}
use otelcontext.Base.Map.{Map, get, put, delete, has}
use otelcontext.Base.Map.Laws.{Distinct, get-put, get-delete, get-put_self, get-delete_self}
use otelcontext.Base.Map.Tally.{tally, tally-put_new, tally-put_old, tally-delete, tally_congr}
use otelcontext.Aggregate.Key.{SeriesKey, key_discrete}

abbrev pub Windows : Type 0
Windows = Map SeriesKey ℕ

abbrev pub Reserve : Type 0
Reserve = Map SeriesKey (Unit {0})

-- An active series that passes `p` and is no overflow series.
abbrev pub is_charged : Reserve → (SeriesKey → Bool) → SeriesKey → ℕ → Bool
is_charged o p k n = p k && not (has key_discrete k o)

unfoldable pub charged : Windows → Reserve → (SeriesKey → Bool) → ℕ
charged w o p = tally (is_charged o p) w

module _ (w : Windows) (o : Reserve) (p : SeriesKey → Bool) (k : SeriesKey) (n : ℕ) where
  pub charged_again :
      (m : ℕ) → get key_discrete k w ≡ some m → charged (put key_discrete k n w) o p ≡ charged w o p
  unfolding charged
  charged_again m h = omega (arith, tally-put_old key_discrete (is_charged o p) k n m w h)

  pub charged_enter :
      get key_discrete k w ≡ none
      → get key_discrete k o ≡ none
      → charged (put key_discrete k n w) o p ≡ charged w o p + bit (p k)
  unfolding charged
  charged_enter h e = ground (arith, tally-put_new key_discrete (is_charged o p) k n w h)

  pub charged_reserve :
      get key_discrete k w ≡ none
      → charged (put key_discrete k n w) (put key_discrete k tt o) p ≡ charged w o p
  unfolding charged
  charged_reserve h =
      let o' = put key_discrete k tt o in
      ground (
        arith,
        tally-put_new key_discrete (is_charged o' p) k n w h,
        get-put_self key_discrete k tt o,
        tally_congr key_discrete (is_charged o' p) (is_charged o p) k w
            (λ j v ne. ground (arith, get-put key_discrete j k tt o)) h,
      )

  pub charged_leave :
      Distinct key_discrete w
      → get key_discrete k w ≡ some n
      → get key_discrete k o ≡ none
      → charged (delete key_discrete k w) o p + bit (p k) ≡ charged w o p
  unfolding charged
  charged_leave s h e = ground (arith, tally-delete key_discrete (is_charged o p) k n w s h)

  pub charged_unreserve :
      (u : Unit {0})
      → Distinct key_discrete w
      → get key_discrete k w ≡ some n
      → get key_discrete k o ≡ some u
      → charged (delete key_discrete k w) (delete key_discrete k o) p ≡ charged w o p
  unfolding charged
  charged_unreserve u s h e =
      let o' = delete key_discrete k o in
      ground (
        arith,
        tally-delete key_discrete (is_charged o p) k n w s h,
        tally_congr key_discrete (is_charged o' p) (is_charged o p) k (delete key_discrete k w)
            (λ j v ne. ground (arith, get-delete key_discrete j k o))
            (get-delete_self key_discrete k w),
      )
