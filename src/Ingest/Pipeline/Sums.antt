-- ===== src/Ingest/Pipeline/Sums.antt =====
-- Sums of a weight over a list, under a write at an index and an append.
use otelcontext.Base.{
  ℕ, zero, suc, ◌+◌, ◌≤◌, ◌≡◌, some, List, [], ◌∷◌, ◌++◌, arith, get_elem?, set, replicate, refl,
}

module _ {A : Type 0} (w : A → ℕ) where
  abbrev pub sum : List A → ℕ
  sum [] = 0
  sum (x ∷ xs) = w x + sum xs

  pub sum-append : (xs ys : List A) → sum (xs ++ ys) ≡ sum xs + sum ys
  sum-append [] ys = omega arith
  sum-append (x ∷ xs) ys = omega (arith, sum-append xs ys)

  pub sum-set :
      (xs : List A) (i : ℕ) (x y : A)
      → get_elem? xs i ≡ some x
      → sum (set xs i y) + w x ≡ sum xs + w y
  sum-set [] i x y h = absurd (cc)
  sum-set (z ∷ zs) zero x y h = ground (arith, h)
  sum-set (z ∷ zs) (suc i) x y h = omega (arith, sum-set zs i x y h)

  pub le-sum : (xs : List A) (i : ℕ) (x : A) → get_elem? xs i ≡ some x → w x ≤ sum xs
  le-sum [] i x h = absurd (cc)
  le-sum (z ∷ zs) zero x h = ground (arith, h)
  le-sum (z ∷ zs) (suc i) x h = omega (arith, le-sum zs i x h)

  pub sum-replicate : (n : ℕ) (x : A) → w x ≡ 0 → sum (replicate n x) ≡ 0
  sum-replicate zero x h = refl
  sum-replicate (suc n) x h = omega (arith, h, sum-replicate n x h)
