-- ===== src/Dht/Key/Distance.antt =====
-- XOR is a metric on keys, and the order that `Closest` sorts by is a strict total order.
use relaymeshnet.Base.{ℕ, zero, suc, ◌≡◌, refl, arith}
use relaymeshnet.Base.{List, [], ◌∷◌, true, false, length, All}
use relaymeshnet.Base.{Bool-cases, inl, inr, bytes_eq}
use relaymeshnet.Base.Words.{IsByte}
use relaymeshnet.Dht.Key.{key_size, xor, is_zero, less}
use relaymeshnet.Dht.Key.Bytes.{bit_xor_comm, bit_xor_cancel, bit_xor-lt, bit_xor-zero}

-- `n` bytes.
pub record IsBytes (n : ℕ) (k : List ℕ) : Type 0 where
  pub size : length k ≡ n
  pub range : All IsByte k

abbrev pub IsKey : List ℕ → Type 0
IsKey k = IsBytes key_size k

tail-IsBytes : {n x : ℕ} {k : List ℕ} → IsBytes (suc n) (x ∷ k) → IsBytes n k
tail-IsBytes h = record { size = omega (arith, h.size); range = h.range.1 }

pub xor_comm : (n : ℕ) (a b : List ℕ) → IsBytes n a → IsBytes n b → xor a b ≡ xor b a
unfolding xor
xor_comm n [] [] ha hb = refl
xor_comm n [] (y ∷ b) ha hb = absurd (omega (arith, ha.size, hb.size))
xor_comm n (x ∷ a) [] ha hb = absurd (omega (arith, ha.size, hb.size))
xor_comm zero (x ∷ a) (y ∷ b) ha hb = absurd (omega (arith, ha.size))
xor_comm (suc n) (x ∷ a) (y ∷ b) ha hb =
    cc (bit_xor_comm x y ha.range.0 hb.range.0, xor_comm n a b (tail-IsBytes ha) (tail-IsBytes hb))

pub xor_cancel : (n : ℕ) (a b : List ℕ) → IsBytes n a → IsBytes n b → xor (xor a b) b ≡ a
unfolding xor
xor_cancel n [] b ha hb = refl
xor_cancel n (x ∷ a) [] ha hb = absurd (omega (arith, ha.size, hb.size))
xor_cancel zero (x ∷ a) (y ∷ b) ha hb = absurd (omega (arith, ha.size))
xor_cancel (suc n) (x ∷ a) (y ∷ b) ha hb =
    cc (
      bit_xor_cancel x y ha.range.0 hb.range.0,
      xor_cancel n a b (tail-IsBytes ha) (tail-IsBytes hb),
    )

pub xor-IsBytes : (n : ℕ) (a b : List ℕ) → IsBytes n a → IsBytes n b → IsBytes n (xor a b)
unfolding xor
xor-IsBytes n [] b ha hb = ha
xor-IsBytes n (x ∷ a) [] ha hb = absurd (omega (arith, ha.size, hb.size))
xor-IsBytes zero (x ∷ a) (y ∷ b) ha hb = absurd (omega (arith, ha.size))
xor-IsBytes (suc n) (x ∷ a) (y ∷ b) ha hb =
    let ih = xor-IsBytes n a b (tail-IsBytes ha) (tail-IsBytes hb) in
    record {
      size = omega (arith, ih.size);
      range = (bit_xor-lt x y ha.range.0 hb.range.0, ih.range);
    }

-- The distance is zero exactly between equal keys.
pub is_zero-xor :
    (n : ℕ) (a b : List ℕ) → IsBytes n a → IsBytes n b → is_zero (xor a b) ≡ bytes_eq a b
unfolding xor is_zero bytes_eq
is_zero-xor n [] [] ha hb = refl
is_zero-xor n [] (y ∷ b) ha hb = absurd (omega (arith, ha.size, hb.size))
is_zero-xor n (x ∷ a) [] ha hb = absurd (omega (arith, ha.size, hb.size))
is_zero-xor zero (x ∷ a) (y ∷ b) ha hb = absurd (omega (arith, ha.size))
is_zero-xor (suc n) (x ∷ a) (y ∷ b) ha hb =
    cc (
      bit_xor-zero x y ha.range.0 hb.range.0,
      is_zero-xor n a b (tail-IsBytes ha) (tail-IsBytes hb),
    )

pub less_irrefl : (a : List ℕ) → less a a ≡ false
unfolding less
less_irrefl [] = refl
less_irrefl (x ∷ a) = ground (arith, less_irrefl a)

pub less_trans : (a b c : List ℕ) → less a b ≡ true → less b c ≡ true → less a c ≡ true
unfolding less
less_trans [] b c p q = cc
less_trans (x ∷ a) [] c p q = cc
less_trans (x ∷ a) (y ∷ b) [] p q = cc
less_trans (x ∷ a) (y ∷ b) (z ∷ c) p q = ground (arith, less_trans a b c)

pub less_total :
    (n : ℕ) (a b : List ℕ) → IsBytes n a → IsBytes n b → less a b ≡ false → less b a ≡ false → a ≡ b
unfolding less
less_total n [] [] ha hb p q = refl
less_total n [] (y ∷ b) ha hb p q = absurd (omega (arith, ha.size, hb.size))
less_total n (x ∷ a) [] ha hb p q = absurd (omega (arith, ha.size, hb.size))
less_total zero (x ∷ a) (y ∷ b) ha hb p q = absurd (omega (arith, ha.size))
less_total (suc n) (x ∷ a) (y ∷ b) ha hb p q =
    ground (arith, less_total n a b (tail-IsBytes ha) (tail-IsBytes hb))

pub less_asymm : (a b : List ℕ) → less a b ≡ true → less b a ≡ false
less_asymm a b h = elim (Bool-cases (less b a)) [
  | inl back ↦ cc (less_trans a b a h back, less_irrefl a)
  | inr e ↦ e
]
