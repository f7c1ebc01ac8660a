-- ===== src/Onion/Loop.antt =====
-- The loop of `BuildCircuit`, which starts at the last hop, against a description of the packet
-- that starts at the first.
use relaymeshnet.Base.{ℕ, zero, suc, ◌+◌, ◌-◌, ◌≡◌, refl, ap, ◌∙◌, arith}
use relaymeshnet.Base.{List, [], ◌∷◌, ◌++◌, some}
use relaymeshnet.Base.{length, get_or, ltb, if◌then◌else◌}
use relaymeshnet.Onion.{Box, Hop, no_hop, flag_final, flag_relay}
use relaymeshnet.Onion.{ok, add_layer, add_layers, build_circuit}

-- The random bytes for the hops after the first.
abbrev pub later : (ℕ → List ℕ) → ℕ → List ℕ
later seeds i = seeds (suc i)

module _ (box : Box) where
  -- The loop when the random source never fails.
  wrap : (ℕ → List ℕ) → List Hop → ℕ → List ℕ → List ℕ
  wrap seeds hops i current =
      box.seal_anonymous (seeds i)
        (if ltb i (length hops - 1)
          then flag_relay ∷ ((get_or hops (i + 1) no_hop).peer_id ++ current)
          else current)
        (get_or hops i no_hop).pub_key

  wraps : (ℕ → List ℕ) → List Hop → ℕ → List ℕ → List ℕ
  wraps seeds hops zero current = current
  wraps seeds hops (suc i) current = wraps seeds hops i (wrap seeds hops i current)

  add_layers-wraps :
      (seeds : ℕ → List ℕ) (hops : List Hop) (k : ℕ) (current : List ℕ)
      → add_layers box (λ i. some (seeds i)) hops k current ≡ ok (wraps seeds hops k current)
  unfolding add_layers add_layer wrap wraps
  add_layers-wraps seeds hops zero current = refl
  add_layers-wraps seeds hops (suc k) current = add_layers-wraps seeds hops k _

  wrap-later :
      (seeds : ℕ → List ℕ) (h : Hop) (rest : List Hop) (i : ℕ) (current : List ℕ)
      → wrap seeds (h ∷ rest) (suc i) current ≡ wrap (later seeds) rest i current
  unfolding wrap
  wrap-later seeds h rest i current = ground arith

  wraps-later :
      (seeds : ℕ → List ℕ) (h : Hop) (rest : List Hop) (k : ℕ) (current : List ℕ)
      → wraps seeds (h ∷ rest) (suc k) current
        ≡ wrap seeds (h ∷ rest) 0 (wraps (later seeds) rest k current)
  unfolding wraps
  wraps-later seeds h rest zero current = refl
  wraps-later seeds h rest (suc k) current =
      rw (wrap-later seeds h rest k current) (wraps-later seeds h rest k _)

  -- The packet for a hop and the hops after it, from the outside in.
  unfoldable pub onion : (ℕ → List ℕ) → List ℕ → Hop → List Hop → List ℕ
  onion seeds plaintext h [] = box.seal_anonymous (seeds 0) (flag_final ∷ plaintext) h.pub_key
  onion seeds plaintext h (next ∷ rest) =
      box.seal_anonymous (seeds 0)
        (flag_relay ∷ (next.peer_id ++ onion (later seeds) plaintext next rest)) h.pub_key

  wrap_first :
      (seeds : ℕ → List ℕ) (h next : Hop) (rest : List Hop) (current : List ℕ)
      → wrap seeds (h ∷ next ∷ rest) 0 current
        ≡ box.seal_anonymous (seeds 0) (flag_relay ∷ (next.peer_id ++ current)) h.pub_key
  unfolding wrap
  wrap_first seeds h next rest current = ground arith

  wraps-onion :
      (seeds : ℕ → List ℕ) (plaintext : List ℕ) (h : Hop) (rest : List Hop)
      → wraps seeds (h ∷ rest) (suc (length rest)) (flag_final ∷ plaintext)
        ≡ onion seeds plaintext h rest
  wraps-onion seeds plaintext h [] = unfold onion wrap wraps in refl
  wraps-onion seeds plaintext h (next ∷ rest) =
      wraps-later seeds h (next ∷ rest) (suc (length rest)) (flag_final ∷ plaintext)
      ∙ rw (wraps-onion (later seeds) plaintext next rest)
          (wrap_first seeds h next rest _ ∙ unfold onion in refl)

  -- While the random source gives bytes, the loop of `BuildCircuit` computes the packet that is
  -- described from the outside in.
  pub build_circuit-onion :
      (seeds : ℕ → List ℕ) (plaintext : List ℕ) (h : Hop) (rest : List Hop)
      → build_circuit box (λ i. some (seeds i)) plaintext (h ∷ rest)
        ≡ ok (onion seeds plaintext h rest)
  unfolding build_circuit
  build_circuit-onion seeds plaintext h rest =
      add_layers-wraps seeds (h ∷ rest) _ _ ∙ ap ok (wraps-onion seeds plaintext h rest)
