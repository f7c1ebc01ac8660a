-- ===== src/Crypto/Identity.antt =====
-- The identity of a node: pkg/crypto/keys.go and pkg/identity/peerid.go. The bytes of a string are a
-- list; encoding/hex is written out. Ed25519's key generation is the argument `generate`.
pub mod Hex
mod Runs
use relaymeshnet.Base.{
  ℕ, ◌+◌, ◌-◌, ◌*◌, ◌/◌, ◌%◌, Bool, ◌&&◌, List, [], ◌∷◌, ◌++◌, Option, none, some,
}
use relaymeshnet.Base.{take, ltb, leb, if◌then◌else◌, bytes_eq}
use relaymeshnet.Crypto.{Primitives, IdentityKeypair, clamp}

-- A digit of `EncodeToString`: 0 to 9 and a to f.
abbrev pub hex_digit : ℕ → ℕ
hex_digit n = if ltb n 10 then n + 48 else n + 87

unfoldable pub encode_hex : List ℕ → List ℕ
encode_hex [] = []
encode_hex (x ∷ xs) = hex_digit (x / 16) ∷ hex_digit (x % 16) ∷ encode_hex xs

-- The value of a digit, in either case.
abbrev pub hex_value : ℕ → Option ℕ
hex_value c =
    if leb 48 c && leb c 57
    then some (c - 48)
    else (if leb 97 c && leb c 102
        then some (c - 87)
        else (if leb 65 c && leb c 70 then some (c - 55) else none))

-- The byte of two digits in front of the rest.
abbrev pub put_byte : Option ℕ → Option ℕ → List ℕ → List ℕ
put_byte (some a) (some b) rest = (a * 16 + b) ∷ rest
put_byte (some a) none rest = []
put_byte none o rest = []

-- `DecodeString`, whose error the callers drop: the bytes before the first that is no hexadecimal.
unfoldable pub decode_hex : List ℕ → List ℕ
decode_hex [] = []
decode_hex (a ∷ []) = []
decode_hex (a ∷ b ∷ xs) = put_byte (hex_value a) (hex_value b) (decode_hex xs)

module _ (prim : Primitives) where
  -- `generate` is what `ed25519.GenerateKey` gives: the public key, the private key and its seed.
  unfoldable pub generate_identity : Option (List ℕ × List ℕ × List ℕ) → Option IdentityKeypair
  generate_identity none = none
  generate_identity (some (pub_key, priv_key, seed)) = some (record {
    pub_key = pub_key;
    priv_key = priv_key;
    dh_key = clamp (take 32 seed);
    dh_pub = prim.base_mult (clamp (take 32 seed));
  })

  unfoldable pub sign_data : IdentityKeypair → List ℕ → List ℕ
  sign_data ik msg = prim.sign ik.priv_key msg

  -- `PeerID`, of the identity and of the key pair alike.
  unfoldable pub peer_id : List ℕ → List ℕ
  unfolding encode_hex
  peer_id pub_key = encode_hex (take 16 (prim.hash pub_key))

  unfoldable pub verify_peer_id : List ℕ → List ℕ → Bool
  unfolding bytes_eq
  verify_peer_id pub_key id = bytes_eq (peer_id pub_key) id
