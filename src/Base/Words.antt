-- ===== src/Base/Words.antt =====
-- Bytes, and uint16 and uint64 as big-endian bytes, as `binary.BigEndian` reads and writes them.
use Prim.Native.Nat.{ℕ, ◌+◌, ◌*◌, ◌/◌, ◌%◌, ◌^◌, ◌<◌}
use mathlib.Core.Path.{◌≡◌}
use mathlib.Core.List.{List, [], ◌∷◌}
use native.Mathlib.Omega.{arith}
use relaymeshnet.Base.Lists.{get_or}

abbrev pub IsByte : ℕ → Type 0
IsByte b = b < 256

abbrev pub IsAscii : ℕ → Type 0
IsAscii b = b < 128

abbrev pub IsUint16 : ℕ → Type 0
IsUint16 v = v < 2 ^ 16

abbrev pub IsUint32 : ℕ → Type 0
IsUint32 v = v < 2 ^ 32

abbrev pub IsUint64 : ℕ → Type 0
IsUint64 v = v < 2 ^ 64

-- `PutUint16`: the bytes that it stores.
abbrev pub put_uint16 : ℕ → List ℕ
put_uint16 v = (v / 256 % 256) ∷ (v % 256) ∷ []

-- `Uint16` of two bytes.
abbrev pub uint16 : List ℕ → ℕ
uint16 b = get_or b 1 0 + get_or b 0 0 * 256

-- `PutUint64`
abbrev pub put_uint64 : ℕ → List ℕ
put_uint64 v =
    (v / 2 ^ 56 % 256)
    ∷ (v / 2 ^ 48 % 256)
    ∷ (v / 2 ^ 40 % 256)
    ∷ (v / 2 ^ 32 % 256)
    ∷ (v / 2 ^ 24 % 256)
    ∷ (v / 2 ^ 16 % 256)
    ∷ (v / 2 ^ 8 % 256)
    ∷ (v % 256)
    ∷ []

pub uint16-put_uint16 : (v : ℕ) → IsUint16 v → uint16 (put_uint16 v) ≡ v
uint16-put_uint16 v h = omega arith

pub put_uint16-uint16 : (a b : ℕ) → IsByte a → IsByte b → put_uint16 (b + a * 256) ≡ a ∷ b ∷ []
put_uint16-uint16 a b ha hb = ground arith
