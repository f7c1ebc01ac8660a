-- ===== src/Crypto/Agreement.antt =====
-- How far the two sides of X3DH agree.
use relaymeshnet.Base.{ℕ, ◌≡◌, refl, arith, true, false, List, ◌∷◌, ◌++◌, map}
use relaymeshnet.Base.{some, length, ltb}
use relaymeshnet.Crypto.{Primitives, DhKeypair, IdentityKeypair, X3dhResult, ok}
use relaymeshnet.Crypto.{clamp, is_zero, zero_key, generate_dh, new_pre_key_bundle, verify_bundle}
use relaymeshnet.Crypto.{send_secret, receive_secret, x3dh_send, x3dh_receive}

-- What RFC 7748 and RFC 8032 say: both parties of a Diffie-Hellman exchange compute one product,
-- and a signature by the private key of a pair verifies under its public key.
pub record IsPrimitives (prim : Primitives) (IsPair : List ℕ → List ℕ → Type 0) : Type 0 where
  pub commutes : (a b : List ℕ) → prim.mult a (prim.base_mult b) ≡ prim.mult b (prim.base_mult a)
  pub verifies :
      (key priv msg : List ℕ) → IsPair key priv → prim.verify key msg (prim.sign priv msg) ≡ true

module _ (prim : Primitives) (IsPair : List ℕ → List ℕ → Type 0)
    (law : IsPrimitives prim IsPair) where
  -- The public half is that of the private half.
  abbrev pub IsDh : List ℕ → List ℕ → Type 0
  IsDh key priv = key ≡ prim.base_mult priv

  -- A sender with a working random source and the receiver's own bundle gets a result, and the two
  -- sides hash the same bytes after the first product: the sender's product of its identity key
  -- with the signed pre-key, where the receiver has 32 zero bytes. The one-time key is not zero.
  pub x3dh_agreement :
      (draw : List ℕ) (alice bob : IdentityKeypair) (spk otk : DhKeypair) (more : List DhKeypair)
      → IsPair bob.pub_key bob.priv_key
      → IsDh bob.dh_pub bob.dh_key
      → IsDh spk.pub_key spk.priv_key
      → IsDh otk.pub_key otk.priv_key
      → is_zero otk.pub_key ≡ false
      → (r : X3dhResult) × (shared : List ℕ) × (x3dh_send prim (some draw) alice (
            new_pre_key_bundle prim bob spk.pub_key
              (otk.pub_key ∷ map (λ (k : DhKeypair). k.pub_key) more))
          ≡ ok r)
        × (r.shared_secret ≡ prim.hash (prim.mult alice.dh_key spk.pub_key ++ shared))
        × (x3dh_receive prim bob spk (otk ∷ more) r
            ≡ (prim.hash (zero_key ++ shared), alice.pub_key ++ bob.pub_key ++ r.ek_pub))
  unfolding x3dh_send x3dh_receive send_secret receive_secret generate_dh new_pre_key_bundle
      verify_bundle
  x3dh_agreement draw alice bob spk otk more signs b s o nonzero =
      let e = clamp draw in
      let some_key : ltb 0 (length (otk ∷ more)) ≡ true = ground arith in
      let ek = prim.base_mult e in
      let bundle =
        new_pre_key_bundle prim bob spk.pub_key
          (otk.pub_key ∷ map (λ (k : DhKeypair). k.pub_key) more) in
      let r : X3dhResult = record {
        shared_secret =
            prim.hash (send_secret prim alice (record { pub_key = ek; priv_key = e }) bundle);
        ad = alice.pub_key ++ bob.pub_key ++ ek;
        ek_pub = ek;
        pre_key_id = 0;
      } in
      (
        r,
        prim.mult bob.dh_key ek ++ (prim.mult spk.priv_key ek ++ prim.mult otk.priv_key ek),
        rw (law.verifies bob.pub_key bob.priv_key spk.pub_key signs) refl,
        rw
            (
              nonzero,
              b,
              s,
              o,
              law.commutes e bob.dh_key,
              law.commutes e spk.priv_key,
              law.commutes e otk.priv_key,
            )
            refl,
        rw (some_key) refl,
      )
