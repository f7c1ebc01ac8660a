-- ===== src/Crypto/Identity/Runs.antt =====
-- Two keys under a toy hash, and the theorem at them.
use relaymeshnet.Base.{
  ℕ, zero, suc, ◌%◌, ◌≡◌, ◌↔◌, arith, true, [], ◌∷◌, All, take, replicate, get_or,
}
use relaymeshnet.Base.Words.{IsByte}
use relaymeshnet.Crypto.{Primitives}
use relaymeshnet.Crypto.Identity.{decode_hex, peer_id, verify_peer_id}
use relaymeshnet.Crypto.Identity.Hex.{verify_peer_id_lem}

abbrev toy : Primitives
toy = record {
  base_mult = λ a. a;
  mult = λ a b. a;
  sign = λ priv msg. msg;
  verify = λ key msg sig. true;
  hash = λ msg. replicate 32 (get_or msg 0 0 % 256);
}

repeated-All : (n x : ℕ) → IsByte x → All IsByte (replicate n x)
repeated-All zero x h = tt
repeated-All (suc n) x h = (h, repeated-All n x h)

verify_peer_id_lem_example :
    (decode_hex (peer_id toy (5 ∷ [])) ≡ take 16 (toy.hash (5 ∷ [])))
    × ((verify_peer_id toy (5 ∷ []) (peer_id toy (6 ∷ [])) ≡ true)
        ↔ (take 16 (toy.hash (5 ∷ [])) ≡ take 16 (toy.hash (6 ∷ []))))
verify_peer_id_lem_example =
    verify_peer_id_lem toy (5 ∷ []) (6 ∷ [])
      (λ msg. repeated-All 32 (get_or msg 0 0 % 256) (omega arith))
