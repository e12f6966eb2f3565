-- ===== src/Common/Int.antt =====
-- `i32` values: integers, and their bit patterns in two's complement.
use Prim.Native.Nat.{ℕ, suc, ◌-◌, ◌%◌, ◌^◌, ◌<◌}
use mathlib.Core.Path.{◌≡◌}
use mathlib.Core.Bool.{Bool}
use native.Mathlib.Omega.{arith}
use hbb_common.Common.Tests.{ltb, leb, if◌then◌else◌}

-- `negsuc n` is -(n + 1).
pub data ℤ : Type 0 where
  pos : ℕ → ℤ
  negsuc : ℕ → ℤ

-- The magnitude.
abbrev pub abs : ℤ → ℕ
abs (pos n) = n
abs (negsuc n) = suc n

-- A value that an `i32` can hold.
abbrev pub IsI32 : ℤ → Type 0
IsI32 (pos n) = n < 2 ^ 31
IsI32 (negsuc n) = n < 2 ^ 31

-- `v as u32`, and back.
unfoldable pub to_u32 : ℤ → ℕ
to_u32 (pos n) = n % 2 ^ 32
to_u32 (negsuc n) = 2 ^ 32 - 1 - n % 2 ^ 32

unfoldable pub of_u32 : ℕ → ℤ
of_u32 w = if ltb w (2 ^ 31) then pos w else negsuc (2 ^ 32 - 1 - w)

pub of_u32-to_u32 : (z : ℤ) → IsI32 z → of_u32 (to_u32 z) ≡ z
unfolding of_u32 to_u32
of_u32-to_u32 (pos n) h = ground arith
of_u32-to_u32 (negsuc n) h = ground arith

pub to_u32-of_u32 : (w : ℕ) → w < 2 ^ 32 → to_u32 (of_u32 w) ≡ w
unfolding of_u32 to_u32
to_u32-of_u32 w h = ground arith

pub of_u32-IsI32 : (w : ℕ) → w < 2 ^ 32 → IsI32 (of_u32 w)
unfolding of_u32
of_u32-IsI32 w h = ground arith

pub to_u32-lt : (z : ℤ) → to_u32 z < 2 ^ 32
unfolding to_u32
to_u32-lt (pos n) = omega arith
to_u32-lt (negsuc n) = omega arith

-- `(-bound..=bound).contains(&v)`.
abbrev pub within : ℕ → ℤ → Bool
within bound z = leb (abs z) bound
