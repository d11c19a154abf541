-- ===== src/Prelude/Words.antt =====
-- Bytes and the big-endian and little-endian words of `encoding/binary`.
use Prim.Native.Nat.{ℕ, ◌+◌, ◌*◌, ◌/◌, ◌%◌, ◌<◌}
use mathlib.Core.Path.{◌≡◌, refl}
use mathlib.Core.List.{[], ◌∷◌, ◌++◌}
use native.Mathlib.Omega.{arith}
use carrier.Prelude.Equality.{Bytes}
use carrier.Prelude.Lists.{All, length}

abbrev pub IsByte : ℕ → Type 0
IsByte b = b < 256

-- A slice of bytes: what the type `[]byte` ensures.
abbrev pub IsBytes : Bytes → Type 0
IsBytes = All IsByte

-- `binary.BigEndian.PutUint16` and `Uint16`
unfoldable pub put_uint16 : ℕ → Bytes
put_uint16 v = (v / 256 % 256) ∷ (v % 256) ∷ []

unfoldable pub uint16 : Bytes → ℕ
uint16 (a ∷ b ∷ rest) = a * 256 + b
uint16 _ = 0

-- `binary.BigEndian.PutUint32` and `Uint32`
unfoldable pub put_uint32 : ℕ → Bytes
put_uint32 v = (v / 16777216 % 256) ∷ (v / 65536 % 256) ∷ (v / 256 % 256) ∷ (v % 256) ∷ []

unfoldable pub uint32 : Bytes → ℕ
uint32 (a ∷ b ∷ c ∷ d ∷ rest) = ((a * 256 + b) * 256 + c) * 256 + d
uint32 _ = 0

-- `binary.LittleEndian.PutUint32` and its inverse
unfoldable pub put_uint32_le : ℕ → Bytes
put_uint32_le v = (v % 256) ∷ (v / 256 % 256) ∷ (v / 65536 % 256) ∷ (v / 16777216 % 256) ∷ []

unfoldable pub uint32_le : Bytes → ℕ
uint32_le (a ∷ b ∷ c ∷ d ∷ rest) = a + (b + (c + d * 256) * 256) * 256
uint32_le _ = 0

pub uint16-put_uint16 : (v : ℕ) (rest : Bytes) → uint16 (put_uint16 v ++ rest) ≡ v % 65536
unfolding uint16 put_uint16
uint16-put_uint16 v rest = omega arith

pub uint32-put_uint32 : (v : ℕ) → v < 4294967296 → uint32 (put_uint32 v) ≡ v
unfolding uint32 put_uint32
uint32-put_uint32 v h = omega arith

pub uint32_le-put_uint32_le :
    (v : ℕ) (rest : Bytes) → v < 4294967296 → uint32_le (put_uint32_le v ++ rest) ≡ v
unfolding uint32_le put_uint32_le
uint32_le-put_uint32_le v rest h = omega arith

pub uint16-lt : (b : Bytes) → IsBytes b → uint16 b < 65536
unfolding uint16
uint16-lt [] h = omega arith
uint16-lt (a ∷ []) h = omega arith
uint16-lt (a ∷ b ∷ rest) h = omega arith

pub length-put_uint16 : (v : ℕ) → length (put_uint16 v) ≡ 2
unfolding put_uint16
length-put_uint16 v = refl

pub length-put_uint32 : (v : ℕ) → length (put_uint32 v) ≡ 4
unfolding put_uint32
length-put_uint32 v = refl

pub uint16_back : (v : ℕ) → v < 65536 → uint16 (put_uint16 v) ≡ v
unfolding uint16 put_uint16
uint16_back v h = omega arith

pub length-put_uint32_le : (v : ℕ) → length (put_uint32_le v) ≡ 4
unfolding put_uint32_le
length-put_uint32_le v = refl

pub uint32_le_back : (v : ℕ) → v < 4294967296 → uint32_le (put_uint32_le v) ≡ v
unfolding uint32_le put_uint32_le
uint32_le_back v h = omega arith
