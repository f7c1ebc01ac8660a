-- ===== src/Onion/Delivery.antt =====
-- Along the route of a circuit every relay learns its successor and the last hop gets the plaintext.
use relaymeshnet.Base.{ℕ, ◌≡◌, arith}
use relaymeshnet.Base.{List, [], ◌∷◌, ◌++◌, some, All}
use relaymeshnet.Base.{length, length-append}
use relaymeshnet.Base.{take-append_exact, drop-append_exact}
use relaymeshnet.Onion.{Box, IsBox, Hop, flag_final, flag_relay, next_hop_size}
use relaymeshnet.Onion.{ok, build_circuit}
use relaymeshnet.Onion.{unwrap_layer, get_next_hop}
use relaymeshnet.Onion.Loop.{later, onion, build_circuit-onion}

-- A hop of the route with the private key that its node holds.
pub record Station : Type 0 where
  pub hop : Hop
  pub priv_key : List ℕ

-- What the nodes of a route see: each relay unwraps the flag RELAY and the peer id of the next hop,
-- passes the inner packet on, and the last hop unwraps the flag FINAL and the plaintext.
abbrev pub Delivers : Box → List ℕ → Station → List Station → List ℕ → Type 0
Delivers box plaintext s [] packet =
    unwrap_layer box packet s.hop.pub_key s.priv_key ≡ ok (flag_final, plaintext)
Delivers box plaintext s (next ∷ rest) packet =
    (payload : List ℕ) × (inner : List ℕ) × (unwrap_layer box packet s.hop.pub_key s.priv_key
      ≡ ok (flag_relay, payload))
    × (get_next_hop payload ≡ ok (next.hop.peer_id, inner))
    × Delivers box plaintext next rest inner

abbrev pub hops_of : List Station → List Hop
hops_of [] = []
hops_of (s ∷ rest) = s.hop ∷ hops_of rest

module _ (box : Box) (IsPair : List ℕ → List ℕ → Type 0) (law : IsBox box IsPair) where
  -- A node of the route: it holds the key pair that the hop names, and its id has 32 bytes.
  abbrev pub IsStation : Station → Type 0
  IsStation s = IsPair s.hop.pub_key s.priv_key × (length s.hop.peer_id ≡ next_hop_size)

  unwrap_sealed :
      (seed payload : List ℕ) (flag : ℕ) (s : Station)
      → IsStation s
      → unwrap_layer box
          (box.seal_anonymous seed (flag ∷ payload) s.hop.pub_key)
          s.hop.pub_key
          s.priv_key
        ≡ ok (flag, payload)
  unfolding unwrap_layer
  unwrap_sealed seed payload flag s v = ground (
    arith,
    law.length_sealed seed (flag ∷ payload) s.hop.pub_key,
    law.opens seed (flag ∷ payload) s.hop.pub_key s.priv_key v.0,
  )

  get_next_hop-append :
      (id inner : List ℕ) → length id ≡ next_hop_size → get_next_hop (id ++ inner) ≡ ok (id, inner)
  unfolding get_next_hop
  get_next_hop-append id inner h = ground (
    arith,
    length-append id inner,
    take-append_exact 32 id inner h,
    drop-append_exact 32 id inner h,
  )

  onion-Delivers :
      (seeds : ℕ → List ℕ) (plaintext : List ℕ) (s : Station) (rest : List Station)
      → IsStation s
      → All IsStation rest
      → Delivers box plaintext s rest (onion box seeds plaintext s.hop (hops_of rest))
  unfolding onion
  onion-Delivers seeds plaintext s [] v vs = unwrap_sealed (seeds 0) plaintext flag_final s v
  onion-Delivers seeds plaintext s (next ∷ rest) v vs = (
    _,
    _,
    unwrap_sealed (seeds 0) _ flag_relay s v,
    get_next_hop-append next.hop.peer_id _ vs.0.1,
    onion-Delivers (later seeds) plaintext next rest vs.0 vs.1,
  )

  -- While the random source gives bytes, a circuit over nodes that hold their own key pairs, with ids
  -- of 32 bytes, is built; and unwrapping it node by node, each with its own keys, names the next node
  -- at every relay and gives the plaintext, flagged final, at the last.
  pub build_circuit-Delivers :
      (seeds : ℕ → List ℕ) (plaintext : List ℕ) (s : Station) (rest : List Station)
      → IsStation s
      → All IsStation rest
      → (packet : List ℕ) × (build_circuit box (λ i. some (seeds i)) plaintext (hops_of (s ∷ rest))
          ≡ ok packet)
        × Delivers box plaintext s rest packet
  build_circuit-Delivers seeds plaintext s rest v vs = (
    onion box seeds plaintext s.hop (hops_of rest),
    build_circuit-onion box seeds plaintext s.hop (hops_of rest),
    onion-Delivers seeds plaintext s rest v vs,
  )
