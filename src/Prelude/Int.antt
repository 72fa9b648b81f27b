-- ===== src/Prelude/Int.antt =====
-- The signed results of C functions, and what an `int` holds of a number that is read from a string.
use Prim.Native.Nat.{ℕ, zero, suc, ◌^◌, ◌-◌, ◌<◌}
use mathlib.Core.Bool.{Bool, true, false}
use linux_comon.Prelude.Tests.{ltb, ◌==◌, if◌then◌else◌}

-- `negsuc n` is -(n + 1).
pub data ℤ : Type 0 where
  pos : ℕ → ℤ
  negsuc : ℕ → ℤ

-- The -1 that most functions return on an error.
abbrev pub minus_one : ℤ
minus_one = negsuc 0

-- rc > 0
abbrev pub positive : ℤ → Bool
positive (pos zero) = false
positive (pos (suc n)) = true
positive (negsuc n) = false

-- rc < 0
abbrev pub negative : ℤ → Bool
negative (pos n) = false
negative (negsuc n) = true

-- rc == 0
abbrev pub is_zero : ℤ → Bool
is_zero (pos zero) = true
is_zero (pos (suc n)) = false
is_zero (negsuc n) = false

-- rc == -1
abbrev pub is_minus_one : ℤ → Bool
is_minus_one (pos n) = false
is_minus_one (negsuc zero) = true
is_minus_one (negsuc (suc n)) = false

-- rc < n
abbrev pub below : ℤ → ℕ → Bool
below (pos k) n = ltb k n
below (negsuc k) n = true

-- rc == k
abbrev pub equal : ℤ → ℤ → Bool
equal (pos a) (pos b) = a == b
equal (pos a) (negsuc b) = false
equal (negsuc a) (pos b) = false
equal (negsuc a) (negsuc b) = a == b

-- The `int` that `strtol`, `atoi` and "%d" make of a number: on the 32-bit target, where `long` is as
-- wide as `int`, the nearest one.
abbrev pub nearest_int : ℤ → ℤ
nearest_int (pos n) = if ltb n (2 ^ 31) then pos n else pos (2 ^ 31 - 1)
nearest_int (negsuc n) = if ltb n (2 ^ 31) then negsuc n else negsuc (2 ^ 31 - 1)

-- From -2^31 to 2^31 - 1.
abbrev pub FitsInt : ℤ → Type 0
FitsInt (pos n) = n < 2 ^ 31
FitsInt (negsuc n) = n < 2 ^ 31
