-- ===== src/Crypto/Ratchet/Sending.antt =====
-- What `Encrypt` sends, over any number of calls.
use relaymeshnet.Base.{ℕ, ◌+◌, ◌%◌, ◌^◌, ◌≡◌, refl, ap, arith, List, [], ◌∷◌, ◌++◌}
use relaymeshnet.Crypto.{Primitives, DhKeypair}
use relaymeshnet.Crypto.Ratchet.{Suite, RatchetState, nonce_of, derive_message_key}
use relaymeshnet.Crypto.Ratchet.{
  chain_key_to_message_key, new_ratchet, ratchet_header, seal_next, encrypt,
}

module _ (prim : Primitives) where
  -- The key of the message that a chain key is for.
  abbrev pub key_of : List ℕ → List ℕ
  key_of chain = chain_key_to_message_key prim (derive_message_key prim chain).0

  abbrev pub next_chain : List ℕ → List ℕ
  next_chain chain = (derive_message_key prim chain).1

-- The numbers that the header resets.
pub record IsReset (rs : RatchetState) : Type 0 where
  pub send : rs.send_msg_num ≡ 0
  pub prev : rs.prev_send_msg_num ≡ 0

module _ (prim : Primitives) (suite : Suite) where
  -- A packet that says that it has a new ratchet key, and is sealed as message 0 of its chain.
  abbrev pub first_packet : RatchetState → List ℕ → List ℕ → List ℕ
  first_packet rs chain plaintext =
      (1 ∷ 0 ∷ rs.dh_keypair.pub_key) ++ suite.seal (key_of prim chain) (nonce_of 0) plaintext rs.ad

  pub encrypt_reset :
      (plaintext : List ℕ) (rs : RatchetState)
      → IsReset rs
      → encrypt prim suite plaintext rs ≡ (
        record rs { sending_chain_key = next_chain prim rs.sending_chain_key },
        first_packet rs rs.sending_chain_key plaintext,
      )
  unfolding encrypt seal_next ratchet_header chain_key_to_message_key derive_message_key
  encrypt_reset plaintext rs r =
      let num : (rs.send_msg_num + 1) % 2 ^ 32 ≡ 1 = omega (arith, r.send) in
      rw (encrypt, seal_next, ratchet_header, num, r.prev, r.send) refl

  -- A history of calls of `Encrypt`, and the packets.
  unfoldable pub encrypt_all : List (List ℕ) → RatchetState → RatchetState × List (List ℕ)
  encrypt_all [] rs = (rs, [])
  encrypt_all (plaintext ∷ rest) rs =
      let (sent, packet) = encrypt prim suite plaintext rs in
      let (last, packets) = encrypt_all rest sent in (last, packet ∷ packets)

  -- The packets of a chain, each the first of its link.
  unfoldable pub chain_packets : RatchetState → List ℕ → List (List ℕ) → List (List ℕ)
  chain_packets rs chain [] = []
  chain_packets rs chain (plaintext ∷ rest) =
      first_packet rs chain plaintext ∷ chain_packets rs (next_chain prim chain) rest

  encrypt_all-packets :
      (texts : List (List ℕ)) (chain : List ℕ) (rs : RatchetState)
      → IsReset rs
      → (encrypt_all texts (record rs { sending_chain_key = chain })).1
        ≡ chain_packets rs chain texts
  unfolding encrypt_all chain_packets
  encrypt_all-packets [] chain rs r = refl
  encrypt_all-packets (text ∷ texts) chain rs r =
      rw
        (encrypt_reset text (record rs { sending_chain_key = chain })
          (record { send = r.send; prev = r.prev }))
        (ap (λ l. first_packet rs chain text ∷ l)
          (encrypt_all-packets texts (next_chain prim chain) rs r))

  -- Over any calls of `Encrypt` on a new ratchet, every packet is sealed as message 0, under the next
  -- key of the one sending chain, behind a header that announces the ratchet key again: no packet
  -- carries a message number.
  pub encrypt_all-new_ratchet :
      (shared_secret ad their_pub : List ℕ) (our_key : DhKeypair) (texts : List (List ℕ))
      → let rs = new_ratchet prim shared_secret ad our_key their_pub in
        (encrypt_all texts rs).1 ≡ chain_packets rs rs.sending_chain_key texts
  unfolding new_ratchet
  encrypt_all-new_ratchet shared_secret ad their_pub our_key texts =
      let rs = new_ratchet prim shared_secret ad our_key their_pub in
      encrypt_all-packets texts rs.sending_chain_key rs (record { send = refl; prev = refl })
