-- ===== src/Dht/Key/Bytes.antt =====
-- XOR and the leading zeros of one byte. The tables check all bytes, or all pairs, by evaluation.
use Prim.Native.Nat.{bit_xor}
use relaymeshnet.Base.{ℕ, zero, suc, ◌+◌, ◌≤◌, ◌<◌, ◌≡◌, refl, arith}
use relaymeshnet.Base.{Bool, true, not, ◌&&◌, ltb, leb, ◌==◌, ==_iff, if◌then◌else◌}
use relaymeshnet.Base.Words.{IsByte}
use relaymeshnet.Dht.Key.{leading_zeros_byte}

every : ℕ → (ℕ → Bool) → Bool
every zero p = true
every (suc n) p = p n && every n p

every_sound : (n : ℕ) (p : ℕ → Bool) (x : ℕ) → every n p ≡ true → x < n → p x ≡ true
unfolding every
every_sound zero p x h lt = absurd (omega arith)
every_sound (suc n) p x h lt = ground (arith, every_sound n p x)

every_pair : (ℕ → ℕ → Bool) → Bool
every_pair p = every 256 (λ x. every 256 (p x))

every_pair_sound :
    (p : ℕ → ℕ → Bool) (x y : ℕ) → every_pair p ≡ true → IsByte x → IsByte y → p x y ≡ true
unfolding every_pair
every_pair_sound p x y h hx hy = every_sound 256 (p x) y (every_sound 256 _ x h hx) hy

comm_table : every_pair (λ x y. bit_xor x y == bit_xor y x) ≡ true
unfolding every every_pair
comm_table = refl

cancel_table : every_pair (λ x y. bit_xor (bit_xor x y) y == x) ≡ true
unfolding every every_pair
cancel_table = refl

range_table : every_pair (λ x y. ltb (bit_xor x y) 256) ≡ true
unfolding every every_pair
range_table = refl

-- Zero exactly on the diagonal.
zero_table : every_pair (λ x y. if bit_xor x y == 0 then x == y else not (x == y)) ≡ true
unfolding every every_pair
zero_table = refl

zeros_table : every 256 (λ b. if b == 0 then true else leb (leading_zeros_byte 8 b) 7) ≡ true
unfolding every leading_zeros_byte
zeros_table = refl

falling_table : every 255 (λ b. leb (leading_zeros_byte 8 (b + 1)) (leading_zeros_byte 8 b)) ≡ true
unfolding every leading_zeros_byte
falling_table = refl

module _ (x y : ℕ) (hx : IsByte x) (hy : IsByte y) where
  pub bit_xor_comm : bit_xor x y ≡ bit_xor y x
  bit_xor_comm = (==_iff _ _).0 (every_pair_sound _ x y comm_table hx hy)

  pub bit_xor_cancel : bit_xor (bit_xor x y) y ≡ x
  bit_xor_cancel = (==_iff _ _).0 (every_pair_sound _ x y cancel_table hx hy)

  pub bit_xor-lt : IsByte (bit_xor x y)
  bit_xor-lt =
      let h = every_pair_sound (λ x y. ltb (bit_xor x y) 256) x y range_table hx hy in ground arith

  pub bit_xor-zero : (bit_xor x y == 0) ≡ (x == y)
  bit_xor-zero =
      let h =
        every_pair_sound (λ x y. if bit_xor x y == 0 then x == y else not (x == y)) x y zero_table
          hx hy in
      ground arith

pub leading_zeros_byte-lt : (b : ℕ) → IsByte b → 0 < b → leading_zeros_byte 8 b ≤ 7
leading_zeros_byte-lt b h positive =
    let e =
      every_sound 256 (λ b. if b == 0 then true else leb (leading_zeros_byte 8 b) 7) b zeros_table
        h in
    ground arith

falling_step : (b : ℕ) → b < 255 → leading_zeros_byte 8 (b + 1) ≤ leading_zeros_byte 8 b
falling_step b h =
    let e =
      every_sound 255 (λ b. leb (leading_zeros_byte 8 (b + 1)) (leading_zeros_byte 8 b)) b
        falling_table h in
    ground arith

-- A larger byte has no more leading zeros.
pub leading_zeros_byte_antitone :
    (k x : ℕ) → x + k < 256 → leading_zeros_byte 8 (x + k) ≤ leading_zeros_byte 8 x
leading_zeros_byte_antitone zero x h = let e : x + 0 ≡ x = omega arith in rw e (omega arith)
leading_zeros_byte_antitone (suc k) x h =
    let e : x + suc k ≡ x + k + 1 = omega arith in
    rw e (
      omega
        (arith, falling_step (x + k) (omega arith), leading_zeros_byte_antitone k x (omega arith)))
