-- ===== src/Prelude/Words.antt =====
-- Byte arrays (`Uint8Array`) as lists of numbers, and the integers that a `DataView` writes.
use Prim.Native.Nat.{ℕ, ◌+◌, ◌*◌, ◌/◌, ◌%◌, ◌^◌, ◌<◌}
use mathlib.Core.Path.{◌≡◌}
use mathlib.Core.List.{List, [], ◌∷◌}
use native.Mathlib.Omega.{arith}

abbrev pub Bytes : Type 0
Bytes = List ℕ

abbrev pub IsByte : ℕ → Type 0
IsByte b = b < 256

-- `setUint8`: the value modulo 2 ^ 8.
abbrev pub u8 : ℕ → ℕ
u8 n = n % 256

-- `setUint16(off, n, false)` and `getUint16(off, false)`.
abbrev pub u16_be : ℕ → Bytes
u16_be n = (n / 256 % 256) ∷ (n % 256) ∷ []

abbrev pub get_u16_be : ℕ → ℕ → ℕ
get_u16_be hi lo = hi * 256 + lo

-- `setUint16(off, n, true)` and `getUint16(off, true)`.
abbrev pub u16_le : ℕ → Bytes
u16_le n = (n % 256) ∷ (n / 256 % 256) ∷ []

abbrev pub get_u16_le : ℕ → ℕ → ℕ
get_u16_le lo hi = lo + hi * 256

-- `setUint32(off, n, true)` and `getUint32(off, true)`.
abbrev pub u32_le : ℕ → Bytes
u32_le n = (n % 256) ∷ (n / 256 % 256) ∷ (n / 65536 % 256) ∷ (n / 16777216 % 256) ∷ []

abbrev pub get_u32_le : ℕ → ℕ → ℕ → ℕ → ℕ
get_u32_le a b c d = a + b * 256 + c * 65536 + d * 16777216

-- What is written is read back modulo the width.
pub get_u16_be-u16_be : (n : ℕ) → get_u16_be (n / 256 % 256) (n % 256) ≡ n % 65536
get_u16_be-u16_be n = omega arith

pub get_u16_le-u16_le : (n : ℕ) → get_u16_le (n % 256) (n / 256 % 256) ≡ n % 65536
get_u16_le-u16_le n = omega arith

pub get_u32_le-u32_le :
    (n : ℕ)
    → get_u32_le (n % 256) (n / 256 % 256) (n / 65536 % 256) (n / 16777216 % 256) ≡ n % 2 ^ 32
get_u32_le-u32_le n = omega arith
