-- ===== src/Common/Numbers.antt =====
-- Arithmetic facts that `omega` does not know: powers of two.
use Prim.Native.Nat.{ℕ, ◌^◌, ◌≤◌}
use native.Mathlib.Nat.{pow-le-pow_right}
use native.Mathlib.Omega.{arith}

pub two_pow_mono : (i j : ℕ) → i ≤ j → 2 ^ i ≤ 2 ^ j
two_pow_mono i j h = pow-le-pow_right {n = 2} (omega arith) h
