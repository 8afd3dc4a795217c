-- ===== src/Base/Float.antt =====
-- Go's `float64` is not defined in the repository: the operations that the code calls are a
-- parameter of the models. The laws that a theorem needs are hypotheses of that theorem.
use mathlib.Core.Bool.{Bool}
use otelcontext.Base.Int.{ℤ}

pub record Float64 : Type 1 where
  pub F : Type 0
  pub zero_f : F
  pub one_f : F
  -- `math.MaxFloat64` and its negation
  pub max_f : F
  pub neg_max_f : F
  pub add_f : F → F → F
  pub sub_f : F → F → F
  pub mul_f : F → F → F
  pub ltb_f : F → F → Bool
  pub eqb_f : F → F → Bool
  pub of_int : ℤ → F
  pub to_int : F → ℤ
  pub div_f : F → F → F
  -- `a <= b`, and `max(a, b)`
  pub leb_f : F → F → Bool
  pub larger_f : F → F → F
  -- neither `math.IsNaN` nor `math.IsInf`
  pub finite_f : F → Bool
  pub neg_inf_f : F
  pub sqrt_f : F → F
