-- ===== src/Dht/Key.antt =====
-- The keys of pkg/dht/table.go: 20 bytes, compared by XOR. SHA-256 is the parameter `hash`. A byte
-- is a number below 256. The proofs are in the modules below.
pub mod Bytes
pub mod Distance
pub mod Prefix
use Prim.Native.Nat.{bit_and, bit_xor}
use relaymeshnet.Base.{ℕ, zero, suc, ◌+◌, ◌^◌, Bool, true, false, ◌&&◌, List, [], ◌∷◌}
use relaymeshnet.Base.{take, ltb, ◌==◌, if◌then◌else◌}

abbrev pub key_size : ℕ
key_size = 20

abbrev pub bucket_size : ℕ
bucket_size = 20

abbrev pub max_buckets : ℕ
max_buckets = 160

-- `KeyFromPeerID` and `KeyFromString` have the same body.
unfoldable pub key_from_string : (List ℕ → List ℕ) → List ℕ → List ℕ
key_from_string hash s = take key_size (hash s)

-- The loop runs over the indices of two arrays of the same length.
unfoldable pub xor : List ℕ → List ℕ → List ℕ
xor [] b = []
xor (x ∷ a) [] = []
xor (x ∷ a) (y ∷ b) = bit_xor x y ∷ xor a b

unfoldable pub is_zero : List ℕ → Bool
is_zero [] = true
is_zero (x ∷ k) = (x == 0) && is_zero k

-- `for j := 7; j >= 0; j--` on one byte: the number is j + 1, and `count` counts from 0.
unfoldable pub leading_zeros_byte : ℕ → ℕ → ℕ
leading_zeros_byte zero b = 0
leading_zeros_byte (suc j) b =
    let rest = suc (leading_zeros_byte j b) in if bit_and b (2 ^ j) == 0 then rest else 0

-- The loop over the bytes: a zero byte counts 8. In any other a bit is set,
-- so it ends the count: the source returns from inside the loop over the bits.
unfoldable pub leading_zeros : List ℕ → ℕ
unfolding leading_zeros_byte
leading_zeros [] = 0
leading_zeros (b ∷ k) =
    let rest = 8 + leading_zeros k in if b == 0 then rest else leading_zeros_byte 8 b

-- The comparison of `Closest`: the first byte that differs decides.
unfoldable pub less : List ℕ → List ℕ → Bool
less [] b = false
less (x ∷ a) [] = false
less (x ∷ a) (y ∷ b) = let rest = less a b in if x == y then rest else ltb x y
