-- ===== src/Prelude/Ints.antt =====
-- Go's signed integers as a sign and a size: `negsuc n` is -(n + 1).
use Prim.Native.Nat.{ℕ, zero, suc, ◌+◌, ◌-◌, ◌*◌, ◌%◌, ◌^◌, ◌<◌}
use mathlib.Core.Path.{◌≡◌}
use native.Mathlib.Omega.{arith}
use daigate.Prelude.Tests.{ltb, if◌then◌else◌}
use mathlib.Core.Option.{Option, none, some}

pub data ℤ : Type 0 where
  pos : ℕ → ℤ
  negsuc : ℕ → ℤ

-- The size of a number above zero.
abbrev pub positive : ℤ → Option ℕ
positive (pos zero) = none
positive (pos (suc n)) = some (suc n)
positive (negsuc n) = none

-- The int64 of a residue modulo 2 ^ 64.
abbrev pub int64_of : ℕ → ℤ
int64_of r = if ltb r (2 ^ 63) then pos r else negsuc (2 ^ 64 - 1 - r)

-- time.Duration(n) * time.Second, which wraps around.
unfoldable pub seconds : ℤ → ℤ
seconds (pos n) = int64_of (n * 1_000_000_000 % 2 ^ 64)
seconds (negsuc n) = int64_of ((2 ^ 64 - (n + 1) * 1_000_000_000 % 2 ^ 64) % 2 ^ 64)

-- Up to some 292 years it does not.
pub seconds-small : (n : ℕ) → n < 9_223_372_036 → seconds (pos n) ≡ pos (n * 1_000_000_000)
unfolding seconds
seconds-small n h = ground arith
