-- ===== src/Prelude/Int.antt =====
-- The `int`s that the library returns, and their conversion to and from 32-bit patterns.
use Prim.Native.Nat.{ℕ, zero, suc, ◌-◌, ◌%◌, ◌^◌, ◌<◌}
use mathlib.Core.Path.{◌≡◌}
use mathlib.Core.Bool.{Bool, false}
use native.Mathlib.Omega.{arith}
use libfatbat.Prelude.Tests.{ltb, ◌==◌, if◌then◌else◌}

-- `negsuc n` is -(n + 1).
pub data ℤ : Type 0 where
  pos : ℕ → ℤ
  negsuc : ℕ → ℤ

abbrev pub neg : ℕ → ℤ
neg zero = pos zero
neg (suc n) = negsuc n

abbrev pub eq_int : ℤ → ℤ → Bool
eq_int (pos a) (pos b) = a == b
eq_int (negsuc a) (negsuc b) = a == b
eq_int (pos a) (negsuc b) = false
eq_int (negsuc a) (pos b) = false

abbrev pub u32_mod : ℕ
u32_mod = 2 ^ 32

-- `uint32_t n = i`, for an `int` i.
abbrev pub to_u32 : ℤ → ℕ
to_u32 (pos n) = n % u32_mod
to_u32 (negsuc n) = (u32_mod - 1 - n % u32_mod)

-- `int i = n`, for a 32-bit pattern n.
abbrev pub of_u32 : ℕ → ℤ
of_u32 n = if ltb n (2 ^ 31) then pos n else negsuc (u32_mod - 1 - n)

-- `size_t n = i`, for an `int` i.
abbrev pub to_u64 : ℤ → ℕ
to_u64 (pos n) = n % 2 ^ 64
to_u64 (negsuc n) = (2 ^ 64 - 1 - n % 2 ^ 64)

-- The call of a function that takes an `int` with a number of type `size_t`.
abbrev pub to_int32 : ℕ → ℤ
to_int32 n = of_u32 (n % u32_mod)

abbrev pub is_positive : ℤ → Bool
is_positive (pos n) = ltb 0 n
is_positive (negsuc n) = false

pub of_u32-small : (n : ℕ) → n < 2 ^ 31 → of_u32 n ≡ pos n
of_u32-small n h = ground arith

-- A pattern of an `int` reads back as that `int`.
pub of_u32-to_u32 :
    (n : ℕ)
    → n < 2 ^ 31
    → (of_u32 (to_u32 (pos n)) ≡ pos n) × (of_u32 (to_u32 (negsuc n)) ≡ negsuc n)
of_u32-to_u32 n h = (ground arith, ground arith)
