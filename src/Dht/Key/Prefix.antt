-- ===== src/Dht/Key/Prefix.antt =====
-- The leading zeros of a distance: the length of the prefix that two keys share.
use relaymeshnet.Base.{ℕ, ◌*◌, ◌-◌, ◌≤◌, ◌<◌, ◌≡◌, sym, ◌∙◌, arith}
use relaymeshnet.Base.{List, [], ◌∷◌, true, false, length, All}
use relaymeshnet.Base.{bytes_eq}
use relaymeshnet.Base.Words.{IsByte}
use relaymeshnet.Dht.Key.{xor, is_zero, less, leading_zeros}
use relaymeshnet.Dht.Key.Bytes.{leading_zeros_byte-lt, leading_zeros_byte_antitone}
use relaymeshnet.Dht.Key.Distance.{IsBytes, xor_comm, xor_cancel, xor-IsBytes, is_zero-xor}

pub leading_zeros-le : (k : List ℕ) → All IsByte k → leading_zeros k ≤ 8 * length k
unfolding leading_zeros
leading_zeros-le [] h = omega arith
leading_zeros-le (b ∷ k) h = ground (arith, leading_zeros-le k h.1, leading_zeros_byte-lt b h.0)

-- Only the zero key has 8 leading zeros a byte.
pub leading_zeros-lt :
    (k : List ℕ) → All IsByte k → is_zero k ≡ false → leading_zeros k < 8 * length k
unfolding leading_zeros is_zero
leading_zeros-lt [] h nonzero = cc
leading_zeros-lt (b ∷ k) h nonzero =
    ground (arith, leading_zeros-lt k h.1, leading_zeros_byte-lt b h.0)

-- A larger distance has no more leading zeros.
pub leading_zeros-less :
    (a b : List ℕ)
    → All IsByte a
    → All IsByte b
    → length a ≡ length b
    → less a b ≡ true
    → leading_zeros b ≤ leading_zeros a
unfolding leading_zeros less
leading_zeros-less [] b ha hb e p = cc
leading_zeros-less (x ∷ a) [] ha hb e p = cc
leading_zeros-less (x ∷ a) (y ∷ b) ha hb e p = ground (
  arith,
  leading_zeros-less a b ha.1 hb.1,
  leading_zeros_byte_antitone (y - x) x,
  leading_zeros_byte-lt y hb.0,
)

-- The distance of two keys is a key; it is symmetric, it is zero exactly when they are equal, and from
-- it and one of them the other is found again, so no two keys are equally far from a third.
pub xor_distance :
    (n : ℕ) (a b : List ℕ)
    → IsBytes n a
    → IsBytes n b
    → (xor a b ≡ xor b a)
      × (is_zero (xor a b) ≡ bytes_eq a b)
      × (xor (xor a b) b ≡ a)
      × IsBytes n (xor a b)
xor_distance n a b ha hb =
    (xor_comm n a b ha hb, is_zero-xor n a b ha hb, xor_cancel n a b ha hb, xor-IsBytes n a b ha hb)

-- Of two keys the one that is closer to the target shares a prefix with it that is at least as long.
pub closer_shares_prefix :
    (n : ℕ) (target a b : List ℕ)
    → IsBytes n target
    → IsBytes n a
    → IsBytes n b
    → less (xor target a) (xor target b) ≡ true
    → leading_zeros (xor target b) ≤ leading_zeros (xor target a)
closer_shares_prefix n target a b ht ha hb h =
    let da = xor-IsBytes n target a ht ha in
    let db = xor-IsBytes n target b ht hb in
    leading_zeros-less (xor target a) (xor target b) da.range db.range (da.size ∙ sym db.size) h
