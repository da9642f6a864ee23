-- ===== src/Prelude/Int.antt =====
-- Signed integers, as far as a cast to an unsigned word needs them.
use Prim.Native.Nat.{ℕ, ◌-◌, ◌%◌}
use mathlib.Core.Bool.{Bool, false}
use i_usb_bridge.Prelude.Tests.{◌==◌}

-- `negsuc n` is -(n + 1).
pub data ℤ : Type 0 where
  pos : ℕ → ℤ
  negsuc : ℕ → ℤ

-- `x as u16` of a signed integer: its low sixteen bits.
abbrev pub as_u16 : ℤ → ℕ
as_u16 (pos n) = n % 65536
as_u16 (negsuc n) = 65535 - n % 65536

-- Is the integer that natural number?
abbrev pub int_is : ℤ → ℕ → Bool
int_is (pos n) k = n == k
int_is (negsuc n) k = false
