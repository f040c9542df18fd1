-- ===== src/Prelude/Int.antt =====
-- The integers of `math/big`, of any size.
use Prim.Native.Nat.{ℕ, zero, suc, ◌*◌, ◌/◌}
use mathlib.Core.Bool.{Bool, true, false}
use bridge_common.Prelude.Tests.{ltb, leb}

-- `negsuc n` is -(n + 1).
pub data ℤ : Type 0 where
  pos : ℕ → ℤ
  negsuc : ℕ → ℤ

-- `a.Sign() > 0`
abbrev pub is_positive : ℤ → Bool
is_positive (pos n) = ltb 0 n
is_positive (negsuc n) = false

-- `a.Cmp(b) <= 0`
abbrev pub le_ℤ : ℤ → ℤ → Bool
le_ℤ (pos a) (pos b) = leb a b
le_ℤ (pos a) (negsuc b) = false
le_ℤ (negsuc a) (pos b) = true
le_ℤ (negsuc a) (negsuc b) = leb b a

abbrev pub neg : ℕ → ℤ
neg zero = pos 0
neg (suc n) = negsuc n

-- `Mul` by a number, and `Quo`, which rounds towards zero.
abbrev pub mul_ℕ : ℤ → ℕ → ℤ
mul_ℕ (pos a) n = pos (a * n)
mul_ℕ (negsuc a) n = neg (suc a * n)

abbrev pub quo_ℕ : ℤ → ℕ → ℤ
quo_ℕ (pos a) n = pos (a / n)
quo_ℕ (negsuc a) n = neg (suc a / n)
