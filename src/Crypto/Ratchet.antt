-- ===== src/Crypto/Ratchet.antt =====
-- pkg/crypto/ratchet.go: the ratchet that encrypts a session. X25519 and SHA-256 are those of
-- Primitives; HKDF, HMAC and AES-GCM are the parameter Suite. `NewCipher` and `NewGCM` cannot fail on
-- the 32 bytes of a message key. A uint32 is a number that wraps at 2 ^ 32. The proofs are in the
-- modules below.
pub mod Sending
pub mod Skipping
pub mod Receiving
mod Runs
use Prim.Native.Nat.{bit_xor}
use relaymeshnet.Base.{
  ℕ, zero, suc, ◌+◌, ◌-◌, ◌*◌, ◌/◌, ◌%◌, ◌^◌, Bool, true, false, List, [], ◌∷◌, ◌++◌,
}
use relaymeshnet.Base.{Option, none, some, length, take, drop, get_or, replicate, ltb, ◌==◌}
use relaymeshnet.Base.{if◌then◌else◌}
use relaymeshnet.Base.Words.{put_uint64}
use relaymeshnet.Base.Maps.{insert, erase}
use relaymeshnet.Crypto.{Primitives, DhKeypair, generate_dh}

-- `KDF` with no salt and no info, for 32 bytes; `HMAC`; `Seal` and `Open` take the key, the nonce, the
-- text and the associated data.
pub record Suite : Type 0 where
  pub kdf : List ℕ → List ℕ
  pub hmac : List ℕ → List ℕ → List ℕ
  pub seal : List ℕ → List ℕ → List ℕ → List ℕ → List ℕ
  pub unseal : List ℕ → List ℕ → List ℕ → List ℕ → Option (List ℕ)

pub record RatchetState : Type 0 where
  pub dh_keypair : DhKeypair
  pub dh_ratchet_pub : List ℕ
  pub root_key : List ℕ
  pub sending_chain_key : List ℕ
  pub receiving_chain_key : List ℕ
  pub send_msg_num : ℕ
  pub recv_msg_num : ℕ
  pub prev_send_msg_num : ℕ
  pub ad : List ℕ
  pub skipped_keys : List (List ℕ × List ℕ)

-- What `Decrypt` gives: the text, one of its errors, or a panic on the nil key pair that it takes when
-- the random source fails.
pub data Outcome : Type 0 where
  plain : List ℕ → Outcome
  packet_too_short not_authentic nil_keypair : Outcome

abbrev pub header_size : ℕ
header_size = 34

-- a - b on a uint32
abbrev pub minus_uint32 : ℕ → ℕ → ℕ
minus_uint32 a b = (a + 2 ^ 32 - b) % 2 ^ 32

-- The 12 bytes of a nonce, from a uint64.
abbrev pub nonce_of : ℕ → List ℕ
nonce_of n = replicate 4 0 ++ put_uint64 n

-- `a[i] ^= b[i]` while both have the index.
unfoldable pub xor_key : List ℕ → List ℕ → List ℕ
xor_key [] b = []
xor_key (x ∷ a) [] = x ∷ a
xor_key (x ∷ a) (y ∷ b) = bit_xor x y ∷ xor_key a b

-- `uint32(header[1])<<16 | uint32(header[2])<<8 | uint32(header[3])`
abbrev pub header_num : List ℕ → ℕ
header_num packet = get_or packet 1 0 * 2 ^ 16 + get_or packet 2 0 * 2 ^ 8 + get_or packet 3 0

-- The header, and the state, whose number it resets when it carries the key. The key overwrites
-- the two low bytes of the number.
unfoldable pub ratchet_header : RatchetState → RatchetState × List ℕ
ratchet_header rs =
    let n = rs.send_msg_num in
    if n == 0
    then (record rs { send_msg_num = 0 }, 1 ∷ n / 2 ^ 16 % 2 ^ 8 ∷ rs.dh_keypair.pub_key)
    else (if ltb 0 (minus_uint32 n rs.prev_send_msg_num)
        then (record rs { send_msg_num = 0 }, 1 ∷ n / 2 ^ 16 % 2 ^ 8 ∷ rs.dh_keypair.pub_key)
        else (rs, 0 ∷ n / 2 ^ 16 % 2 ^ 8 ∷ n / 2 ^ 8 % 2 ^ 8 ∷ n % 2 ^ 8 ∷ replicate 30 0))

module _ (prim : Primitives) where
  abbrev pub dh_ratchet : DhKeypair → List ℕ → List ℕ
  dh_ratchet kp pub_key = prim.mult kp.priv_key pub_key

  abbrev pub compute_chain_key : List ℕ → List ℕ → List ℕ
  compute_chain_key root_key dh_output = prim.hash (root_key ++ dh_output)

  -- Half of the hash each, in arrays of 32 bytes: the message key and the next chain key.
  unfoldable pub derive_message_key : List ℕ → List ℕ × List ℕ
  derive_message_key chain_key =
      let h = prim.hash chain_key in (take 16 h ++ replicate 16 0, drop 16 h ++ replicate 16 0)

  unfoldable pub chain_key_to_message_key : List ℕ → List ℕ
  chain_key_to_message_key chain = (derive_message_key chain).0

  unfoldable pub new_ratchet : List ℕ → List ℕ → DhKeypair → List ℕ → RatchetState
  new_ratchet shared_secret ad our_key their_ratchet_pub =
      let chain = compute_chain_key shared_secret (dh_ratchet our_key their_ratchet_pub) in
      record {
        dh_keypair = our_key;
        dh_ratchet_pub = their_ratchet_pub;
        root_key = shared_secret;
        sending_chain_key = chain;
        receiving_chain_key = chain;
        send_msg_num = 0;
        recv_msg_num = 0;
        prev_send_msg_num = 0;
        ad = ad;
        skipped_keys = [];
      }

  -- One key of the receiving chain: the message key, and the state with the chain moved.
  unfoldable pub receive_key : RatchetState → RatchetState × List ℕ
  unfolding derive_message_key chain_key_to_message_key
  receive_key rs =
      let (mk, next_chain) = derive_message_key rs.receiving_chain_key in
      (record rs { receiving_chain_key = next_chain }, chain_key_to_message_key mk)

  -- The loop that skips keys: the number is how many rounds are left.
  unfoldable pub skip_keys : ℕ → RatchetState → RatchetState
  skip_keys zero rs = rs
  skip_keys (suc n) rs =
      let (moved, key) = receive_key rs in
      skip_keys n (record moved { skipped_keys = insert key key moved.skipped_keys })

module _ (prim : Primitives) (suite : Suite) where
  -- The state after the chain has moved, and the ciphertext.
  unfoldable pub seal_next : List ℕ → RatchetState → RatchetState × List ℕ
  unfolding derive_message_key chain_key_to_message_key
  seal_next plaintext rs =
      let (key, next_chain) = derive_message_key prim rs.sending_chain_key in
      let n = (rs.send_msg_num + 1) % 2 ^ 32 in
      (
        record rs { sending_chain_key = next_chain; send_msg_num = n },
        suite.seal (chain_key_to_message_key prim key) (nonce_of (minus_uint32 n 1)) plaintext
            rs.ad,
      )

  -- The packet is the header and the ciphertext.
  unfoldable pub encrypt : List ℕ → RatchetState → RatchetState × List ℕ
  encrypt plaintext rs =
      let (moved, ciphertext) = seal_next plaintext rs in
      let (sent, header) = ratchet_header moved in
      (
        if ltb 0 (minus_uint32 sent.send_msg_num sent.prev_send_msg_num)
            then record sent { prev_send_msg_num = sent.send_msg_num }
            else sent,
        header ++ ciphertext,
      )

  -- `draw` is what `rand.Read` gives: 32 bytes, or an error, which leaves a nil key pair.
  unfoldable pub dh_ratchet_step : Option (List ℕ) → List ℕ → RatchetState → Option RatchetState
  unfolding xor_key
  dh_ratchet_step draw new_pub rs = elim (generate_dh prim draw) [
    | none ↦ none
    | some new_key ↦
        let dh_out = dh_ratchet prim rs.dh_keypair new_pub in
        let h1 = suite.hmac (suite.kdf dh_out) rs.root_key in
        let h2 = suite.hmac rs.root_key rs.root_key in
        let root = xor_key h1 h2 in
        some (record rs {
          dh_keypair = new_key;
          dh_ratchet_pub = new_pub;
          root_key = root;
          sending_chain_key = compute_chain_key prim root (dh_ratchet prim new_key new_pub);
          receiving_chain_key = compute_chain_key prim root dh_out;
          send_msg_num = 0;
          prev_send_msg_num = 0;
        })
  ]

  -- The loop over the map: the first key that opens the packet, and its text.
  unfoldable pub try_skipped_message_keys :
      List ℕ → List ℕ → List ℕ → List (List ℕ × List ℕ) → Option (List ℕ × List ℕ)
  try_skipped_message_keys ad ciphertext nonce [] = none
  try_skipped_message_keys ad ciphertext nonce ((mk, key) ∷ keys) =
      elim (suite.unseal key nonce ciphertext ad) [
        | some text ↦ some (mk, text)
        | none ↦ try_skipped_message_keys ad ciphertext nonce keys
      ]

  -- The part of `Decrypt` behind the header.
  unfoldable pub open_packet : List ℕ → ℕ → RatchetState → RatchetState × Outcome
  open_packet ciphertext msg_num rs =
      let nonce = nonce_of msg_num in
      elim (try_skipped_message_keys rs.ad ciphertext nonce rs.skipped_keys) [
        | some (mk, text) ↦ (record rs { skipped_keys = erase mk rs.skipped_keys }, plain text)
        | none ↦
            let (moved, key) = receive_key prim (skip_keys prim (msg_num - rs.recv_msg_num) rs) in
            (
              record moved { recv_msg_num = (msg_num + 1) % 2 ^ 32 },
              elim (suite.unseal key nonce ciphertext rs.ad) [
                | some text ↦ plain text
                | none ↦ not_authentic
              ],
            )
      ]

  unfoldable pub decrypt : Option (List ℕ) → List ℕ → RatchetState → RatchetState × Outcome
  decrypt draw packet rs =
      if ltb (length packet) header_size
      then (rs, packet_too_short)
      else (if get_or packet 0 0 == 1
          then elim (dh_ratchet_step draw (take 32 (drop 2 packet)) rs) [
            | none ↦ (rs, nil_keypair)
            | some stepped ↦ open_packet (drop header_size packet) (header_num packet) stepped
          ]
          else open_packet (drop header_size packet) (header_num packet) rs)
