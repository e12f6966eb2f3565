-- ===== src/Common/Saturating.antt =====
-- `saturating_add` on `u32` and `u64`, and `checked_add(1)` on `u64`.
use Prim.Native.Nat.{ℕ, ◌+◌, ◌-◌, ◌^◌, min}
use mathlib.Core.Option.{Option, none, some}
use hbb_common.Common.Tests.{◌==◌, if◌then◌else◌}

abbrev pub saturating_u32 : ℕ → ℕ → ℕ
saturating_u32 a b = min (a + b) (2 ^ 32 - 1)

abbrev pub saturating_u64 : ℕ → ℕ → ℕ
saturating_u64 a b = min (a + b) (2 ^ 64 - 1)

unfoldable pub checked_next : ℕ → Option ℕ
checked_next n = if n == 2 ^ 64 - 1 then none else some (n + 1)
