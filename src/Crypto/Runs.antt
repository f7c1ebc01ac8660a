-- ===== src/Crypto/Runs.antt =====
-- A key agreement with toy primitives, and the theorem at it.
use relaymeshnet.Base.{
  ℕ, ◌*◌, ◌≡◌, refl, arith, true, List, [], ◌∷◌, ◌++◌, map, some, replicate, ap,
}
use relaymeshnet.Base.{get_or}
use relaymeshnet.Crypto.{is_zero, Primitives, DhKeypair, IdentityKeypair, X3dhResult, ok, zero_key}
use relaymeshnet.Crypto.{new_pre_key_bundle, x3dh_send, x3dh_receive}
use relaymeshnet.Crypto.Agreement.{IsPrimitives, x3dh_agreement}

-- Products of numbers: a public key is twice the private one.
abbrev toy : Primitives
toy = record {
  base_mult = λ a. 2 * get_or a 0 0 ∷ [];
  mult = λ a b. get_or a 0 0 * get_or b 0 0 ∷ [];
  sign = λ priv msg. priv ++ msg;
  verify = λ key msg sig. true;
  hash = λ msg. msg;
}

toy-IsPrimitives : IsPrimitives toy (λ key priv. key ≡ priv)
toy-IsPrimitives = record {
  commutes = λ a b. ap (λ (n : ℕ). n ∷ []) (grind arith);
  verifies = λ key priv msg h. refl;
}

abbrev person : ℕ → IdentityKeypair
person n = record { pub_key = n ∷ []; priv_key = n ∷ []; dh_key = n ∷ []; dh_pub = 2 * n ∷ [] }

abbrev pair : ℕ → DhKeypair
pair n = record { pub_key = 2 * n ∷ []; priv_key = n ∷ [] }

x3dh_agreement_example :
    (r : X3dhResult) × (shared : List ℕ) × (x3dh_send toy (some (replicate 32 9)) (person 3) (
        new_pre_key_bundle toy
          (person 4)
          (10 ∷ [])
          ((12 ∷ []) ∷ map (λ (k : DhKeypair). k.pub_key) []))
      ≡ ok r)
    × (r.shared_secret ≡ toy.hash (toy.mult (3 ∷ []) (10 ∷ []) ++ shared))
    × (x3dh_receive toy (person 4) (pair 5) (pair 6 ∷ []) r
        ≡ (toy.hash (zero_key ++ shared), (3 ∷ []) ++ (4 ∷ []) ++ r.ek_pub))
x3dh_agreement_example =
    x3dh_agreement toy (λ key priv. key ≡ priv) toy-IsPrimitives (replicate 32 9) (person 3)
      (person 4) (pair 5) (pair 6) [] refl refl refl refl (unfold is_zero in refl)
