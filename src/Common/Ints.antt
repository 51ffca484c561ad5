-- ===== src/Common/Ints.antt =====
-- Go's signed integers, as unbounded ones.
use Prim.Native.Nat.{ℕ}
use mathlib.Core.Path.{◌≡◌}
use mathlib.Core.Bool.{Bool, true, false}
use native.Mathlib.Omega.{arith}
use kernlet.Common.Tests.{◌==◌}

-- `negsuc n` is -(n + 1).
pub data ℤ : Type 0 where
  pos : ℕ → ℤ
  negsuc : ℕ → ℤ

-- int64(n) == z, for a number `n` below 2 ^ 63.
abbrev pub is_pos : ℕ → ℤ → Bool
is_pos n (pos m) = n == m
is_pos n (negsuc m) = false

pub is_pos-eq : (n : ℕ) (z : ℤ) → is_pos n z ≡ true → z ≡ pos n
is_pos-eq n (pos m) h = ground arith
is_pos-eq n (negsuc m) h = ground arith
