-- ===== src/Aggregate/Sketch/Sums.antt =====
-- sketch.go: sums of bins under the moves of the window.
use otelcontext.Base.{ℕ, zero, suc, ◌+◌, ◌≤◌, ◌<◌, ◌≡◌, refl, ◌∙◌, ap, arith}
use otelcontext.Aggregate.Sketch.{sum_below, set_bin}

-- Sums of functions that agree below `n`.
pub sum_below-congr :
    (f g : ℕ → ℕ) (n : ℕ) → ((p : ℕ) → p < n → f p ≡ g p) → sum_below f n ≡ sum_below g n
unfolding sum_below
sum_below-congr f g zero h = refl
sum_below-congr f g (suc n) h =
    let rest = sum_below-congr f g n (λ p l. h p (omega (arith, l))) in
    omega (arith, rest, h n (omega arith))

pub sum_below-zero : (f : ℕ → ℕ) (n : ℕ) → ((p : ℕ) → p < n → f p ≡ 0) → sum_below f n ≡ 0
unfolding sum_below
sum_below-zero f zero h = refl
sum_below-zero f (suc n) h =
    let rest = sum_below-zero f n (λ p l. h p (omega (arith, l))) in
    omega (arith, rest, h n (omega arith))

-- A bin that grows by `d`: every sum that reaches it grows by `d`.
pub sum_below-set_above :
    (f : ℕ → ℕ) (pos v n : ℕ) → n ≤ pos → sum_below (set_bin f pos v) n ≡ sum_below f n
unfolding sum_below set_bin
sum_below-set_above f pos v zero h = refl
sum_below-set_above f pos v (suc n) h = ground (arith, sum_below-set_above f pos v n, h)

pub sum_below-set :
    (f : ℕ → ℕ) (pos d n : ℕ)
    → pos < n
    → sum_below (set_bin f pos (f pos + d)) n ≡ sum_below f n + d
unfolding sum_below set_bin
sum_below-set f pos d zero h = absurd (omega arith)
sum_below-set f pos d (suc n) h =
    ground (arith, h, sum_below-set f pos d n, sum_below-set_above f pos (f pos + d) n)

-- A sum of consecutive bins, `n` of them from `shift` on.
pub sum_below-shift :
    (f : ℕ → ℕ) (shift n : ℕ)
    → sum_below f (shift + n) ≡ sum_below f shift + sum_below (λ p. f (p + shift)) n
unfolding sum_below
sum_below-shift f shift zero =
    let e : shift + 0 ≡ shift = omega arith in
    let z : sum_below f shift ≡ sum_below f shift + 0 = omega arith in ap (sum_below f) e ∙ z
sum_below-shift f shift (suc n) =
    let e : shift + suc n ≡ suc (shift + n) = omega arith in
    let last : f (shift + n) ≡ f (n + shift) = ap f (omega arith) in
    let rest = sum_below-shift f shift n in
    let total : sum_below f (shift + n) + f (shift + n)
        ≡ sum_below f shift + (sum_below (λ p. f (p + shift)) n + f (n + shift)) =
      omega (arith, last, rest) in
    ap (sum_below f) e ∙ total
