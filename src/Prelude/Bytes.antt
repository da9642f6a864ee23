-- ===== src/Prelude/Bytes.antt =====
-- Big- and little-endian integers as lists of bytes.
use Prim.Native.Nat.{ℕ, ◌+◌, ◌*◌, ◌/◌, ◌%◌, ◌^◌, ◌<◌}
use mathlib.Core.Path.{◌≡◌}
use mathlib.Core.List.{List, [], ◌∷◌}
use native.Mathlib.Omega.{arith}

abbrev pub Bytes : Type 0
Bytes = List ℕ

abbrev pub u16_mod : ℕ
u16_mod = 2 ^ 16

abbrev pub u32_mod : ℕ
u32_mod = 2 ^ 32

abbrev pub to_be_bytes16 : ℕ → Bytes
to_be_bytes16 x = (x / 256 % 256) ∷ (x % 256) ∷ []

abbrev pub to_be_bytes32 : ℕ → Bytes
to_be_bytes32 x = (x / 2 ^ 24 % 256) ∷ (x / 2 ^ 16 % 256) ∷ (x / 2 ^ 8 % 256) ∷ (x % 256) ∷ []

abbrev pub to_le_bytes32 : ℕ → Bytes
to_le_bytes32 x = (x % 256) ∷ (x / 2 ^ 8 % 256) ∷ (x / 2 ^ 16 % 256) ∷ (x / 2 ^ 24 % 256) ∷ []

abbrev be_from : ℕ → Bytes → ℕ
be_from acc [] = acc
be_from acc (b ∷ bs) = be_from (acc * 256 + b) bs

abbrev pub from_be_bytes : Bytes → ℕ
from_be_bytes bs = be_from 0 bs

abbrev pub from_le_bytes : Bytes → ℕ
from_le_bytes [] = 0
from_le_bytes (b ∷ bs) = b + 256 * from_le_bytes bs

pub from_be_bytes-to_be_bytes16 : (x : ℕ) → x < u16_mod → from_be_bytes (to_be_bytes16 x) ≡ x
from_be_bytes-to_be_bytes16 x h = omega arith

pub from_be_bytes-to_be_bytes32 : (x : ℕ) → x < u32_mod → from_be_bytes (to_be_bytes32 x) ≡ x
from_be_bytes-to_be_bytes32 x h = omega arith

pub from_le_bytes-to_le_bytes32 : (x : ℕ) → x < u32_mod → from_le_bytes (to_le_bytes32 x) ≡ x
from_le_bytes-to_le_bytes32 x h = omega arith
