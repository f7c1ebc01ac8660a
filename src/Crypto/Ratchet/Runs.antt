-- ===== src/Crypto/Ratchet/Runs.antt =====
-- Toy primitives, a sender and a receiver, and the theorems at them.
use relaymeshnet.Base.{◌+◌, ◌*◌, ◌≡◌, refl, true, [], ◌∷◌, ◌++◌, some, replicate, get_or}
use relaymeshnet.Crypto.{Primitives, DhKeypair}
use relaymeshnet.Crypto.Ratchet.{Suite, RatchetState, new_ratchet, encrypt, decrypt, nonce_of}
use relaymeshnet.Crypto.Ratchet.Sending.{
  IsReset, key_of, encrypt_all, chain_packets, encrypt_all-new_ratchet,
}
use relaymeshnet.Crypto.Ratchet.Receiving.{Opened, next_receiving, decrypt-encrypt}

abbrev toy : Primitives
toy = record {
  base_mult = λ a. a;
  mult = λ a b. get_or a 0 0 * get_or b 0 0 ∷ [];
  sign = λ priv msg. msg;
  verify = λ key msg sig. true;
  hash = λ msg. replicate 32 (get_or msg 0 0 + 1);
}

abbrev suite : Suite
suite = record {
  kdf = λ a. a;
  hmac = λ a b. a ++ b;
  seal = λ key nonce text ad. key ++ nonce ++ text;
  unseal = λ key nonce text ad. some text;
}

abbrev our_key : DhKeypair
our_key = record { pub_key = 7 ∷ 8 ∷ replicate 30 1; priv_key = 5 ∷ [] }

abbrev start : RatchetState
start = new_ratchet toy (3 ∷ []) (4 ∷ []) our_key (6 ∷ [])

encrypt_all-new_ratchet_example :
    (encrypt_all toy suite ((1 ∷ []) ∷ (2 ∷ []) ∷ []) start).1
    ≡ chain_packets toy suite start start.sending_chain_key ((1 ∷ []) ∷ (2 ∷ []) ∷ [])
encrypt_all-new_ratchet_example =
    encrypt_all-new_ratchet toy suite (3 ∷ []) (4 ∷ []) (6 ∷ []) our_key ((1 ∷ []) ∷ (2 ∷ []) ∷ [])

start-IsReset : IsReset start
unfolding new_ratchet
start-IsReset = record { send = refl; prev = refl }

decrypt-encrypt_example :
    let packet = (encrypt toy suite (9 ∷ []) start).1 in
    let sealed = suite.seal (key_of toy start.sending_chain_key) (nonce_of 0) (9 ∷ []) start.ad in
    Opened toy suite
      (next_receiving toy suite start our_key.pub_key)
      1800
      1800
      sealed
      start.ad
      (decrypt toy suite (some (2 ∷ [])) packet start)
unfolding new_ratchet
decrypt-encrypt_example =
    decrypt-encrypt toy suite (2 ∷ []) (9 ∷ []) (replicate 30 1) 7 8 start start start-IsReset refl
      refl refl
