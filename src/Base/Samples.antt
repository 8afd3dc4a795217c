-- ===== src/Base/Samples.antt =====
-- Whole numbers in place of `float64`: the arithmetic at which the tests evaluate the models.
use Prim.Native.Nat.{ℕ, ◌+◌, ◌-◌, ◌*◌, ◌/◌, max}
use mathlib.Core.Bool.{true}
use otelcontext.Base.Tests.{ltb, leb, ◌==◌}
use otelcontext.Base.Int.{pos, pos_part}
use otelcontext.Base.Float.{Float64}

abbrev pub whole_float : Float64
whole_float = record {
  F = ℕ;
  zero_f = 0;
  one_f = 1;
  max_f = 1000000;
  neg_max_f = 0;
  add_f = ◌+◌;
  sub_f = ◌-◌;
  mul_f = ◌*◌;
  ltb_f = ltb;
  eqb_f = ◌==◌;
  of_int = pos_part;
  to_int = pos;
  div_f = ◌/◌;
  leb_f = leb;
  larger_f = max;
  finite_f = λ x. true;
  neg_inf_f = 0;
  sqrt_f = λ x. x;
}
