-- ===== src/Prelude/Division.antt =====
-- Monotonicity of the division of native numbers.
use Prim.Native.Nat.{ℕ, ◌/◌, ◌≤◌, ◌<◌}
use native.Mathlib.Nat.{le-div_iff_mul-le, div-mul-le_self, le_trans}

pub div-le-div : (a b c : ℕ) → 0 < c → a ≤ b → a / c ≤ b / c
div-le-div a b c p h = (le-div_iff_mul-le p).1 (le_trans (div-mul-le_self a c) h)
