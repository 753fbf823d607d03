-- ===== src/Prelude/Float.antt =====
-- float64, which the language has not: its operations are a parameter of the model.
use mathlib.Core.Bool.{Bool}
use waok8s.Prelude.Int64.{ℤ}

pub record Floats : Type 1 where
  pub F : Type 0
  pub zero_f : F
  pub add : F → F → F
  pub sub : F → F → F
  pub mul : F → F → F
  pub div : F → F → F
  -- `a == b` and `a < b`
  pub eqb : F → F → Bool
  pub ltf : F → F → Bool
  -- `float64(n)` and `int64(x)`
  pub of_int : ℤ → F
  pub to_int : F → ℤ
  -- `math.Round`
  pub round : F → F
