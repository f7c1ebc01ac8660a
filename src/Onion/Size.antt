-- ===== src/Onion/Size.antt =====
-- `OnionSize` against the packets of `BuildCircuit`.
use relaymeshnet.Base.{ℕ, ◌+◌, ◌*◌, ◌≡◌, arith}
use relaymeshnet.Base.{List, [], ◌∷◌, ◌++◌, some, All}
use relaymeshnet.Base.{length, length-append}
use relaymeshnet.Base.Int.{pos}
use relaymeshnet.Onion.{Box, IsBox, Hop, flag_relay, next_hop_size}
use relaymeshnet.Onion.{ok, build_circuit}
use relaymeshnet.Onion.{onion_size}
use relaymeshnet.Onion.Loop.{later, onion, build_circuit-onion}

module _ (box : Box) (IsPair : List ℕ → List ℕ → Type 0) (law : IsBox box IsPair) where
  length-onion :
      (seeds : ℕ → List ℕ) (plaintext : List ℕ) (h : Hop) (rest : List Hop)
      → All (λ k. length k.peer_id ≡ next_hop_size) rest
      → length (onion box seeds plaintext h rest)
        ≡ length plaintext + 1 + box.overhead + length rest * (box.overhead + 33)
  unfolding onion
  length-onion seeds plaintext h [] v = omega (arith, law.length_sealed (seeds 0) _ h.pub_key)
  length-onion seeds plaintext h (next ∷ rest) v = omega (
    arith,
    law.length_sealed (seeds 0)
        (flag_relay ∷ (next.peer_id ++ onion box (later seeds) plaintext next rest)) h.pub_key,
    length-append next.peer_id (onion box (later seeds) plaintext next rest),
    length-onion (later seeds) plaintext next rest v.1,
  )

  -- While the random source gives bytes, `OnionSize` is the length of the packet that `BuildCircuit`
  -- builds, for one hop or more whose ids, after the first, have 32 bytes.
  pub length-build_circuit :
      (seeds : ℕ → List ℕ) (plaintext : List ℕ) (h : Hop) (rest : List Hop)
      → All (λ k. length k.peer_id ≡ next_hop_size) rest
      → (packet : List ℕ) × (build_circuit box (λ i. some (seeds i)) plaintext (h ∷ rest)
          ≡ ok packet)
        × (onion_size box (length plaintext) (length (h ∷ rest)) ≡ pos (length packet))
  unfolding onion_size
  length-build_circuit seeds plaintext h rest v = (
    onion box seeds plaintext h rest,
    build_circuit-onion box seeds plaintext h rest,
    ground (arith, length-onion seeds plaintext h rest v),
  )
