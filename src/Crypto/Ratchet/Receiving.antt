-- ===== src/Crypto/Ratchet/Receiving.antt =====
-- What `Decrypt` makes of a packet of `Encrypt`, and where it moves the receiving chain.
use relaymeshnet.Base.{
  ℕ, ◌+◌, ◌-◌, ◌*◌, ◌%◌, ◌^◌, ◌≤◌, ◌<◌, ◌≡◌, refl, ap, ◌∙◌, arith, List, [], ◌∷◌, ◌++◌,
}
use relaymeshnet.Base.{
  Option, none, some, false, length, take, drop, drop-append_exact, take-append_exact,
  length-append, ltb,
}
use relaymeshnet.Base.Maps.{lookup}
use relaymeshnet.Crypto.{Primitives, generate_dh}
use relaymeshnet.Crypto.Ratchet.{Suite, RatchetState, Outcome, plain, not_authentic, nonce_of}
use relaymeshnet.Crypto.Ratchet.{
  encrypt, decrypt, dh_ratchet, compute_chain_key, xor_key, dh_ratchet_step, open_packet,
  receive_key,
}
use relaymeshnet.Crypto.Ratchet.{try_skipped_message_keys}
use relaymeshnet.Crypto.Ratchet.Sending.{IsReset, key_of, next_chain, encrypt_reset}
use relaymeshnet.Crypto.Ratchet.Skipping.{
  chain_at, skip_keys-length, skip_keys-chain, lookup-skip_keys,
}

abbrev pub answer : Option (List ℕ) → Outcome
answer none = not_authentic
answer (some text) = plain text

module _ (prim : Primitives) (suite : Suite) where
  -- The root key that a step of the ratchet makes with a Diffie-Hellman product.
  abbrev pub next_root : List ℕ → List ℕ → List ℕ
  next_root dh_out root = xor_key (suite.hmac (suite.kdf dh_out) root) (suite.hmac root root)

  -- The receiving chain of a state after a step of the ratchet to a new key.
  abbrev pub next_receiving : RatchetState → List ℕ → List ℕ
  next_receiving rs new_pub =
      let dh_out = dh_ratchet prim rs.dh_keypair new_pub in
      compute_chain_key prim (next_root dh_out rs.root_key) dh_out

  -- What `Decrypt` does with the message `num` when it skips `count` keys of a chain: it opens the
  -- ciphertext with the key behind them, moves the chain behind that key, and keeps the skipped keys.
  pub record Opened (chain : List ℕ) (count num : ℕ) (ciphertext ad : List ℕ)
      (result : RatchetState × Outcome) : Type 0 where
    pub text :
        result.1
        ≡ answer
            (suite.unseal (key_of prim (chain_at prim count chain)) (nonce_of num) ciphertext ad)
    pub moved : result.0.receiving_chain_key ≡ next_chain prim (chain_at prim count chain)
    pub received : result.0.recv_msg_num ≡ (num + 1) % 2 ^ 32
    pub kept :
        (i : ℕ)
        → i < count
        → let key = key_of prim (chain_at prim i chain) in
          lookup key result.0.skipped_keys ≡ some key
    pub only : length result.0.skipped_keys ≤ count

  open_packet-new :
      (ciphertext : List ℕ) (num : ℕ) (rs : RatchetState)
      → rs.skipped_keys ≡ []
      → Opened rs.receiving_chain_key
          (num - rs.recv_msg_num)
          num
          ciphertext
          rs.ad
          (open_packet prim suite ciphertext num rs)
  unfolding open_packet try_skipped_message_keys receive_key
  open_packet-new ciphertext num rs e =
      let count = num - rs.recv_msg_num in
      let none_left : length rs.skipped_keys ≡ 0 = ap length e in
      let untried : try_skipped_message_keys prim suite rs.ad ciphertext (nonce_of num)
            rs.skipped_keys
          ≡ none =
        ap (try_skipped_message_keys prim suite rs.ad ciphertext (nonce_of num)) e in
      let chain = skip_keys-chain prim count rs in
      record {
        text = rw (open_packet, untried, receive_key, chain) refl;
        moved = rw (open_packet, untried, receive_key, chain) refl;
        received = rw (open_packet, untried) refl;
        kept = λ i h. rw (open_packet, untried) (lookup-skip_keys prim count i rs h);
        only = rw (open_packet, untried) (omega (arith, skip_keys-length prim count rs, none_left));
      }

  open_packet-stepped :
      (ciphertext chain ad : List ℕ) (num received : ℕ) (rs : RatchetState)
      → rs.skipped_keys ≡ []
      → rs.receiving_chain_key ≡ chain
      → rs.recv_msg_num ≡ received
      → rs.ad ≡ ad
      → Opened chain (num - received) num ciphertext ad (open_packet prim suite ciphertext num rs)
  open_packet-stepped ciphertext chain ad num received rs e c r d =
      rw (← c, ← r, ← d) (open_packet-new ciphertext num rs e)

  dh_ratchet_step_ok :
      (draw new_pub : List ℕ) (rs : RatchetState)
      → (stepped : RatchetState) × (dh_ratchet_step prim suite (some draw) new_pub rs
          ≡ some stepped)
        × (stepped.skipped_keys ≡ rs.skipped_keys)
        × (stepped.receiving_chain_key ≡ next_receiving rs new_pub)
        × (stepped.recv_msg_num ≡ rs.recv_msg_num)
        × (stepped.ad ≡ rs.ad)
  unfolding dh_ratchet_step generate_dh
  dh_ratchet_step_ok draw new_pub rs = (_, refl, refl, refl, refl, refl)

  decrypt-new_key :
      (draw ciphertext rest : List ℕ) (a b : ℕ) (rs : RatchetState)
      → length rest ≡ 30
      → (stepped : RatchetState) × (decrypt prim suite
            (some draw)
            (1 ∷ 0 ∷ a ∷ b ∷ (rest ++ ciphertext))
            rs
          ≡ open_packet prim suite ciphertext (a * 256 + b) stepped)
        × (stepped.skipped_keys ≡ rs.skipped_keys)
        × (stepped.receiving_chain_key ≡ next_receiving rs (a ∷ b ∷ rest))
        × (stepped.recv_msg_num ≡ rs.recv_msg_num)
        × (stepped.ad ≡ rs.ad)
  unfolding decrypt
  decrypt-new_key draw ciphertext rest a b rs size =
      let long : ltb (length (1 ∷ 0 ∷ a ∷ b ∷ (rest ++ ciphertext))) 34 ≡ false =
        ground (arith, length-append rest ciphertext, size) in
      let cut : drop 30 (rest ++ ciphertext) ≡ ciphertext =
        drop-append_exact 30 rest ciphertext size in
      let key : take 30 (rest ++ ciphertext) ≡ rest = take-append_exact 30 rest ciphertext size in
      let num : 0 * 2 ^ 16 + a * 2 ^ 8 + b ≡ a * 256 + b = omega arith in
      let (stepped, ends, skipped, chain, received, ad) =
        dh_ratchet_step_ok draw (a ∷ b ∷ rest) rs in
      (stepped, rw (decrypt, long, key, ends, cut, num) refl, skipped, chain, received, ad)

  -- A packet of `Encrypt`, sealed as message 0, is opened as the message `num` that the first two bytes
  -- of the sender's ratchet key spell: the receiver steps its ratchet to that key, skips a key of the
  -- new chain for each number from its own to `num`, and keeps each of these keys and no more keys than
  -- their number; it opens the packet with the key behind them and the nonce of `num`, moves the chain
  -- behind that key, and expects `num` + 1, modulo 2 ^ 32. The receiver has not skipped any key
  -- before, and its random source works.
  pub decrypt-encrypt :
      (draw plaintext rest : List ℕ) (a b : ℕ) (sender receiver : RatchetState)
      → IsReset sender
      → sender.dh_keypair.pub_key ≡ a ∷ b ∷ rest
      → length rest ≡ 30
      → receiver.skipped_keys ≡ []
      → let packet = (encrypt prim suite plaintext sender).1 in
        let sealed =
          suite.seal (key_of prim sender.sending_chain_key) (nonce_of 0) plaintext sender.ad in
        let num = a * 256 + b in
        Opened
          (next_receiving receiver sender.dh_keypair.pub_key)
          (num - receiver.recv_msg_num)
          num
          sealed
          receiver.ad
          (decrypt prim suite (some draw) packet receiver)
  decrypt-encrypt draw plaintext rest a b sender receiver r pub_key size e =
      let sealed =
        suite.seal (key_of prim sender.sending_chain_key) (nonce_of 0) plaintext sender.ad in
      let (stepped, opens, skipped, chain, received, ad) =
        decrypt-new_key draw sealed rest a b receiver size in
      let packet : (encrypt prim suite plaintext sender).1 ≡ 1 ∷ 0 ∷ a ∷ b ∷ (rest ++ sealed) =
        rw (encrypt_reset prim suite plaintext sender r, pub_key) refl in
      rw (packet, opens, pub_key)
        (open_packet-stepped sealed _ receiver.ad (a * 256 + b) receiver.recv_msg_num stepped
          (skipped ∙ e) chain received ad)
