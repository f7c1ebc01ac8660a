-- ===== src/Onion/Failures.antt =====
-- The errors of `BuildCircuit`, and exactly when `UnwrapLayer` and `GetNextHop` succeed.
use relaymeshnet.Base.{ℕ, zero, suc, ◌≤◌, ◌<◌, ◌≡◌, ◌↔◌, arith, ◌⊎◌, inl, inr}
use relaymeshnet.Base.{List, ◌∷◌, ◌++◌, Option, none, some, length, length-append, length-take}
use relaymeshnet.Base.{take-append-drop, take-append_exact, drop-append_exact}
use relaymeshnet.Onion.{Box, Hop, next_hop_size, ok, err, encrypt_layer}
use relaymeshnet.Onion.{add_layer, add_layers, build_circuit, unwrap_layer, get_next_hop}

module _ (box : Box) (draws : ℕ → Option (List ℕ)) (i : ℕ) where
  -- Every layer that the loop reaches before layer `i` gets its random bytes.
  abbrev pub DrawsAfter : ℕ → Type 0
  DrawsAfter n = (j : ℕ) → i < j → j < n → (seed : List ℕ) × (draws j ≡ some seed)

  add_layers_failure :
      (hops : List Hop) (k : ℕ) (current : List ℕ)
      → i < k
      → draws i ≡ none
      → DrawsAfter k
      → add_layers box draws hops k current ≡ err (encrypt_layer i)
  unfolding add_layers add_layer
  add_layers_failure hops zero current h stop later = absurd (omega arith)
  add_layers_failure hops (suc k) current h stop later = elim (eq-or-lt k h) [
    | inl here ↦ ground arith
    | inr beyond ↦
        let (seed, got) = later k beyond (omega arith) in
        rw (got, add_layer)
          (add_layers_failure hops k _ beyond stop λ j a b. later j a (omega arith))
  ]
    where
      eq-or-lt : (m : ℕ) → i < suc m → (m ≡ i) ⊎ (i < m)
      eq-or-lt m q = grind arith

  -- If the random source fails first at layer `i`, the layers after it having been sealed before,
  -- `BuildCircuit` returns the error of that layer and no packet.
  pub build_circuit_failure :
      (plaintext : List ℕ) (h : Hop) (rest : List Hop)
      → i < length (h ∷ rest)
      → draws i ≡ none
      → DrawsAfter (length (h ∷ rest))
      → build_circuit box draws plaintext (h ∷ rest) ≡ err (encrypt_layer i)
  unfolding build_circuit
  build_circuit_failure plaintext h rest = add_layers_failure (h ∷ rest) _ _

-- `UnwrapLayer` returns a flag and a payload exactly when the packet is at least as long as the
-- overhead and opens to that flag followed by that payload.
pub unwrap_layer_ok :
    (box : Box) (packet pub_key priv_key payload : List ℕ) (flag : ℕ)
    → (unwrap_layer box packet pub_key priv_key ≡ ok (flag, payload)) ↔ (
        (box.overhead ≤ length packet)
        × (box.open_anonymous packet pub_key priv_key ≡ some (flag ∷ payload)))
unfolding unwrap_layer
unwrap_layer_ok box packet pub_key priv_key payload flag =
    ((λ h. ground arith), (λ h. ground arith))

-- `GetNextHop` cuts the first 32 bytes off, and loses none.
pub get_next_hop_ok :
    (payload id inner : List ℕ)
    → (get_next_hop payload ≡ ok (id, inner))
      ↔ ((length id ≡ next_hop_size) × (payload ≡ id ++ inner))
unfolding get_next_hop
get_next_hop_ok payload id inner = (
  (λ h. ground (arith, length-take next_hop_size payload, take-append-drop next_hop_size payload)),
  (λ (n, e). ground (
    arith,
    length-append id inner,
    take-append_exact next_hop_size id inner n,
    drop-append_exact next_hop_size id inner n,
  )),
)
