-- ===== src/Prelude/Int.antt =====
-- Python's unbounded integers.
use Prim.Native.Nat.{ℕ, ◌+◌, ◌-◌}
use mathlib.Core.Path.{◌≡◌, refl, ap}
use mathlib.Core.Bool.{Bool, true, false}
use ker_sor_monitor.Prelude.Tests.{nat_beq, leb, ltb, if◌then◌else◌}
use native.Mathlib.Omega.{arith}

-- `negsuc n` is -(n + 1).
pub data ℤ : Type 0 where
  pos : ℕ → ℤ
  negsuc : ℕ → ℤ

-- `m == n`
abbrev pub int_beq : ℤ → ℤ → Bool
int_beq (pos m) (pos n) = nat_beq m n
int_beq (negsuc m) (negsuc n) = nat_beq m n
int_beq _ _ = false

pub int_beq_refl : (m : ℤ) → int_beq m m ≡ true
int_beq_refl (pos m) = ground arith
int_beq_refl (negsuc m) = ground arith

pub eq-of_int_beq : (m n : ℤ) → int_beq m n ≡ true → m ≡ n
eq-of_int_beq (pos m) (pos n) h = ap pos (ground (arith, h))
eq-of_int_beq (negsuc m) (negsuc n) h = ap negsuc (ground (arith, h))
eq-of_int_beq (pos m) (negsuc n) h = cc
eq-of_int_beq (negsuc m) (pos n) h = cc

pub int_beq_comm : (m n : ℤ) → int_beq m n ≡ int_beq n m
int_beq_comm (pos m) (pos n) = ground arith
int_beq_comm (negsuc m) (negsuc n) = ground arith
int_beq_comm (pos m) (negsuc n) = refl
int_beq_comm (negsuc m) (pos n) = refl

abbrev less_nat : ℕ → ℕ → ℤ
less_nat m n = if leb n m then pos (m - n) else negsuc (n - m - 1)

-- `m - n`
infixl 65 ◌-ℤ◌
abbrev pub ◌-ℤ◌ : ℤ → ℤ → ℤ
pos m -ℤ pos n = less_nat m n
pos m -ℤ negsuc n = pos (m + n + 1)
negsuc m -ℤ pos n = negsuc (m + n)
negsuc m -ℤ negsuc n = less_nat n m

-- `m < n`
abbrev pub int_lt : ℤ → ℤ → Bool
int_lt (pos m) (pos n) = ltb m n
int_lt (pos m) (negsuc n) = false
int_lt (negsuc m) (pos n) = true
int_lt (negsuc m) (negsuc n) = ltb n m

-- `m + n`
infixl 65 ◌+ℤ◌
abbrev pub ◌+ℤ◌ : ℤ → ℤ → ℤ
pos m +ℤ pos n = pos (m + n)
pos m +ℤ negsuc n = less_nat m (n + 1)
negsuc m +ℤ pos n = less_nat n (m + 1)
negsuc m +ℤ negsuc n = negsuc (m + n + 1)
