-- ===== src/Crypto.antt =====
-- pkg/crypto: key pairs (dh.go, keys.go), pre-key bundles (prekey.go) and the X3DH key agreement
-- (x3dh.go). X25519, Ed25519 and SHA-256 are parameters. The proofs are in the module below.
pub mod Agreement
pub mod Ratchet
pub mod Identity
mod Runs
use Prim.Native.Nat.{bit_and, bit_or}
use relaymeshnet.Base.{ℕ, Bool, true, false, ◌&&◌, List, [], ◌∷◌, ◌++◌, Option, none, some}
use relaymeshnet.Base.{length, set, get_or, replicate, ltb, ◌==◌, if◌then◌else◌}

-- ScalarBaseMult and ScalarMult of golang.org/x/crypto/curve25519; Sign and Verify of crypto/ed25519;
-- Sum256 of crypto/sha256.
pub record Primitives : Type 0 where
  pub base_mult : List ℕ → List ℕ
  pub mult : List ℕ → List ℕ → List ℕ
  pub sign : List ℕ → List ℕ → List ℕ
  pub verify : List ℕ → List ℕ → List ℕ → Bool
  pub hash : List ℕ → List ℕ

pub record DhKeypair : Type 0 where
  pub pub_key : List ℕ
  pub priv_key : List ℕ

pub record IdentityKeypair : Type 0 where
  pub pub_key : List ℕ
  pub priv_key : List ℕ
  pub dh_key : List ℕ
  pub dh_pub : List ℕ

pub record PreKeyBundle : Type 0 where
  pub identity_key : List ℕ
  pub dh_pub : List ℕ
  pub signed_pre_key : List ℕ
  pub signed_pre_key_sig : List ℕ
  pub one_time_pre_keys : List (List ℕ)

pub record X3dhResult : Type 0 where
  pub shared_secret : List ℕ
  pub ad : List ℕ
  pub ek_pub : List ℕ
  pub pre_key_id : ℕ

pub data Error : Type 0 where
  bundle_signature_invalid ephemeral_key : Error

pub data Result {ℓ} (A : Type ℓ) : Type ℓ where
  ok : A → Result A
  err : Error → Result A

-- The bits that X25519 wants in a private key.
unfoldable pub clamp : List ℕ → List ℕ
clamp priv =
    let first = set priv 0 (bit_and (get_or priv 0 0) 248) in
    set first 31 (bit_or (bit_and (get_or first 31 0) 127) 64)

unfoldable pub is_zero : List ℕ → Bool
is_zero [] = true
is_zero (x ∷ k) = (x == 0) && is_zero k

abbrev pub zero_key : List ℕ
zero_key = replicate 32 0

abbrev pub no_pair : DhKeypair
no_pair = record { pub_key = []; priv_key = [] }

module _ (prim : Primitives) where
  -- `draw` is what `rand.Read` gives: 32 bytes, or an error.
  unfoldable pub generate_dh : Option (List ℕ) → Option DhKeypair
  unfolding clamp
  generate_dh none = none
  generate_dh (some draw) =
      some (record { pub_key = prim.base_mult (clamp draw); priv_key = clamp draw })

  unfoldable pub new_pre_key_bundle : IdentityKeypair → List ℕ → List (List ℕ) → PreKeyBundle
  new_pre_key_bundle ik spk_pub otks = record {
    identity_key = ik.pub_key;
    dh_pub = ik.dh_pub;
    signed_pre_key = spk_pub;
    signed_pre_key_sig = prim.sign ik.priv_key spk_pub;
    one_time_pre_keys = otks;
  }

  unfoldable pub verify_bundle : PreKeyBundle → Bool
  verify_bundle b = prim.verify b.identity_key b.signed_pre_key b.signed_pre_key_sig

  -- What the sender hashes: three products, and a fourth if there is a one-time key.
  unfoldable pub send_secret : IdentityKeypair → DhKeypair → PreKeyBundle → List ℕ
  unfolding is_zero
  send_secret ik ek b =
      let pre_key_pub = get_or b.one_time_pre_keys 0 zero_key in
      prim.mult ik.dh_key b.signed_pre_key
      ++ (prim.mult ek.priv_key b.dh_pub
          ++ (prim.mult ek.priv_key b.signed_pre_key
              ++ (if is_zero pre_key_pub then [] else prim.mult ek.priv_key pre_key_pub)))

  unfoldable pub x3dh_send : Option (List ℕ) → IdentityKeypair → PreKeyBundle → Result X3dhResult
  x3dh_send draw ik b =
      if verify_bundle b
      then (elim (generate_dh draw) [
        | none ↦ err ephemeral_key
        | some ek ↦ ok (record {
          shared_secret = prim.hash (send_secret ik ek b);
          ad = ik.pub_key ++ b.identity_key ++ ek.pub_key;
          ek_pub = ek.pub_key;
          pre_key_id = 0;
        })
      ])
      else err bundle_signature_invalid

  -- What the receiver hashes, with 32 zero bytes where the sender has the first product.
  unfoldable pub receive_secret : IdentityKeypair → DhKeypair → List DhKeypair → X3dhResult → List ℕ
  receive_secret ik spk pre_keys r =
      replicate 32 0
      ++ (prim.mult ik.dh_key r.ek_pub
          ++ (prim.mult spk.priv_key r.ek_pub
              ++ (if ltb r.pre_key_id (length pre_keys)
                  then prim.mult (get_or pre_keys r.pre_key_id no_pair).priv_key r.ek_pub
                  else [])))

  unfoldable pub x3dh_receive :
      IdentityKeypair → DhKeypair → List DhKeypair → X3dhResult → List ℕ × List ℕ
  x3dh_receive ik spk pre_keys r = (prim.hash (receive_secret ik spk pre_keys r), r.ad)
