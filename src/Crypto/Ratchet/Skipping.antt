-- ===== src/Crypto/Ratchet/Skipping.antt =====
-- The keys that `Decrypt` derives and keeps for the messages it has not seen.
use relaymeshnet.Base.{ℕ, zero, suc, ◌+◌, ◌≤◌, ◌<◌, ◌≡◌, refl, ◌∙◌, arith, List, [], ◌∷◌}
use relaymeshnet.Base.{some, length, bytes_eq_refl, bytes_eq→eq}
use relaymeshnet.Base.Maps.{insert, lookup, lookup-insert}
use relaymeshnet.Crypto.{Primitives}
use relaymeshnet.Crypto.Ratchet.{RatchetState}
use relaymeshnet.Crypto.Ratchet.{receive_key, skip_keys}
use relaymeshnet.Crypto.Ratchet.Sending.{key_of, next_chain}

length-insert : (k v : List ℕ) (m : List (List ℕ × List ℕ)) → length (insert k v m) ≤ suc (length m)
unfolding insert
length-insert k v [] = omega arith
length-insert k v ((j, w) ∷ m) = ground (arith, length-insert k v m)

module _ (prim : Primitives) where
  pub skip_keys-length :
      (n : ℕ) (rs : RatchetState)
      → length (skip_keys prim n rs).skipped_keys ≤ n + length rs.skipped_keys
  unfolding skip_keys receive_key
  skip_keys-length zero rs = omega arith
  skip_keys-length (suc n) rs =
      let (moved, key) = receive_key prim rs in
      omega (
        arith,
        skip_keys-length n (record moved { skipped_keys = insert key key rs.skipped_keys }),
        length-insert key key rs.skipped_keys,
      )

  -- The chain key that `n` derivations make of a chain key.
  abbrev pub chain_at : ℕ → List ℕ → List ℕ
  chain_at zero chain = chain
  chain_at (suc n) chain = chain_at n (next_chain prim chain)

  pub skip_keys-chain :
      (n : ℕ) (rs : RatchetState)
      → (skip_keys prim n rs).receiving_chain_key ≡ chain_at n rs.receiving_chain_key
  unfolding skip_keys receive_key
  skip_keys-chain zero rs = refl
  skip_keys-chain (suc n) rs = skip_keys-chain n _

  insert_kept :
      (key new : List ℕ) (m : List (List ℕ × List ℕ))
      → lookup key m ≡ some key
      → lookup key (insert new new m) ≡ some key
  insert_kept key new m h = ground (arith, lookup-insert new key new m, bytes_eq→eq new key)

  skip_keys_kept :
      (n : ℕ) (key : List ℕ) (rs : RatchetState)
      → lookup key rs.skipped_keys ≡ some key
      → lookup key (skip_keys prim n rs).skipped_keys ≡ some key
  unfolding skip_keys receive_key
  skip_keys_kept zero key rs h = h
  skip_keys_kept (suc n) key rs h = skip_keys_kept n key _ (insert_kept key _ rs.skipped_keys h)

  -- Every skipped key is kept, under itself.
  pub lookup-skip_keys :
      (n i : ℕ) (rs : RatchetState)
      → i < n
      → let key = key_of prim (chain_at i rs.receiving_chain_key) in
        lookup key (skip_keys prim n rs).skipped_keys ≡ some key
  unfolding skip_keys receive_key
  lookup-skip_keys zero i rs h = absurd (omega (arith, h))
  lookup-skip_keys (suc n) zero rs h =
      let key = key_of prim rs.receiving_chain_key in
      skip_keys_kept n key _
        (lookup-insert key key key rs.skipped_keys ∙ rw (bytes_eq_refl key) refl)
  lookup-skip_keys (suc n) (suc i) rs h = lookup-skip_keys n i _ (omega (arith, h))
