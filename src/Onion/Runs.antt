-- ===== src/Onion/Runs.antt =====
-- A toy box that meets the laws, a circuit over two nodes, and the theorems at that circuit.
use relaymeshnet.Base.{ℕ, zero, suc, ◌≡◌, refl, arith, List, [], ◌∷◌, ◌++◌}
use relaymeshnet.Base.{Option, none, some, length, replicate, drop}
use relaymeshnet.Base.Int.{pos, negsuc}
use relaymeshnet.Onion.{Box, IsBox, ok, flag_final}
use relaymeshnet.Onion.{add_layer, add_layers, build_circuit}
use relaymeshnet.Onion.{onion_size}
use relaymeshnet.Onion.Delivery.{Station, Delivers, build_circuit-Delivers}
use relaymeshnet.Onion.Size.{length-build_circuit}
use relaymeshnet.Onion.Failures.{DrawsAfter}

-- 48 zero bytes and the message.
abbrev toy : Box
toy = record {
  overhead = 48;
  seal_anonymous = λ seed msg key. replicate 48 0 ++ msg;
  open_anonymous = λ packet key priv. some (drop 48 packet);
}

abbrev AnyPair : List ℕ → List ℕ → Type 0
AnyPair key priv = Unit {0}

toy-IsBox : IsBox toy AnyPair
toy-IsBox = record {
  length_sealed = λ seed msg key. omega arith;
  opens = λ seed msg key priv p. refl;
}

abbrev alice : Station
alice = record {
  hop = record { peer_id = replicate 32 1; pub_key = replicate 32 2 };
  priv_key = replicate 32 3;
}

abbrev bob : Station
bob = record {
  hop = record { peer_id = replicate 32 4; pub_key = replicate 32 5 };
  priv_key = replicate 32 6;
}

abbrev zeros : ℕ → List ℕ
zeros i = replicate 32 0

abbrev secret : List ℕ
secret = b'h' ∷ b'i' ∷ []

-- Without a hop the size is negative.
onion_size_zero : onion_size toy 2 0 ≡ negsuc 29
unfolding onion_size
onion_size_zero = refl

-- Three hops and 200 bytes: 411, where modules/17-protocol-spec.md counts 385.
onion_size_three : onion_size toy 200 3 ≡ pos 411
unfolding onion_size
onion_size_three = refl

build_circuit_one :
    build_circuit toy (λ i. some (zeros i)) secret (alice.hop ∷ [])
    ≡ ok (replicate 48 0 ++ flag_final ∷ secret)
unfolding build_circuit add_layers add_layer
build_circuit_one = refl

build_circuit-Delivers_example :
    (packet : List ℕ) × (build_circuit toy (λ i. some (zeros i)) secret (alice.hop ∷ bob.hop ∷ [])
      ≡ ok packet)
    × Delivers toy secret alice (bob ∷ []) packet
build_circuit-Delivers_example =
    build_circuit-Delivers toy AnyPair toy-IsBox zeros secret alice (bob ∷ []) (tt, refl)
      ((tt, refl), tt)

length-build_circuit_example :
    (packet : List ℕ) × (build_circuit toy (λ i. some (zeros i)) secret (alice.hop ∷ bob.hop ∷ [])
      ≡ ok packet)
    × (onion_size toy 2 2 ≡ pos (length packet))
length-build_circuit_example =
    length-build_circuit toy AnyPair toy-IsBox zeros secret alice.hop (bob.hop ∷ []) (refl, tt)

-- The read for the inner layer works and the one for the outer layer fails.
abbrev outer_fails : ℕ → Option (List ℕ)
outer_fails zero = none
outer_fails (suc i) = some (zeros i)

outer_fails-DrawsAfter : DrawsAfter toy outer_fails 0 2
outer_fails-DrawsAfter zero h k = absurd (omega arith)
outer_fails-DrawsAfter (suc j) h k = (zeros j, refl)
