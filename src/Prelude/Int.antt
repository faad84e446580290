-- ===== src/Prelude/Int.antt =====
-- Signed 64-bit payloads are read as integers: ℤ over the native numbers.
use Prim.Native.Nat.{ℕ}
use mathlib.Core.Path.{◌≡◌, ap}
use mathlib.Core.Bool.{Bool, true, false}
use ran_tan_plan.Prelude.Tests.{◌==◌, ==_iff, ==_refl}

-- `negsuc n` is -(n + 1).
pub data ℤ : Type 0 where
  pos : ℕ → ℤ
  negsuc : ℕ → ℤ

abbrev pub int_beq : ℤ → ℤ → Bool
int_beq (pos m) (pos n) = m == n
int_beq (negsuc m) (negsuc n) = m == n
int_beq (pos m) (negsuc n) = false
int_beq (negsuc m) (pos n) = false

pub int_beq_refl : (z : ℤ) → int_beq z z ≡ true
int_beq_refl (pos n) = ==_refl n
int_beq_refl (negsuc n) = ==_refl n

pub int_beq→eq : (y z : ℤ) → int_beq y z ≡ true → y ≡ z
int_beq→eq (pos m) (pos n) h = ap pos ((==_iff m n).0 h)
int_beq→eq (negsuc m) (negsuc n) h = ap negsuc ((==_iff m n).0 h)
int_beq→eq (pos m) (negsuc n) h = cc
int_beq→eq (negsuc m) (pos n) h = cc
