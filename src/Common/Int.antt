-- ===== src/Common/Int.antt =====
-- Signed numbers over the native ℕ, for `i32` values.
use Prim.Native.Nat.{ℕ, zero, suc}
use native.Mathlib.Decide.{ℕ_discrete}

pub data ℤ : Type 0 where
  pos : ℕ → ℤ
  negsuc : ℕ → ℤ

unfoldable pub ℤ-discrete : Discrete ℤ
ℤ-discrete = hlevel ℕ_discrete

-- The literal `-n`.
abbrev pub neg : ℕ → ℤ
neg zero = pos zero
neg (suc n) = negsuc n
