-- ===== src/Onion.antt =====
-- pkg/onion/onion.go. The anonymous boxes of golang.org/x/crypto/nacl/box are a parameter: a record
-- of the two functions and the constant that the file uses, with their documented laws in `IsBox`.
-- The proofs are in the modules below.
pub mod Loop
pub mod Delivery
pub mod Size
pub mod Failures
mod Runs
use relaymeshnet.Base.{ℕ, zero, suc, ◌+◌, ◌-◌, ◌*◌, ◌<◌, ◌≡◌, Bool, List, [], ◌∷◌, ◌++◌}
use relaymeshnet.Base.{Option, none, some, length, take, drop, get_or, ltb, if◌then◌else◌}
use relaymeshnet.Base.Int.{ℤ, sub_ℕ}

-- `SealAnonymous` takes 32 random bytes, the message and the recipient's public key.
-- `OpenAnonymous` takes the box and the recipient's two keys.
pub record Box : Type 0 where
  pub overhead : ℕ
  pub seal_anonymous : List ℕ → List ℕ → List ℕ → List ℕ
  pub open_anonymous : List ℕ → List ℕ → List ℕ → Option (List ℕ)

-- What the package documents: a box is `overhead` bytes longer than its message, and the owner of
-- the key pair opens it.
pub record IsBox (box : Box) (IsPair : List ℕ → List ℕ → Type 0) : Type 0 where
  pub length_sealed :
      (seed msg key : List ℕ) → length (box.seal_anonymous seed msg key) ≡ length msg + box.overhead
  pub opens :
      (seed msg key priv : List ℕ)
      → IsPair key priv
      → box.open_anonymous (box.seal_anonymous seed msg key) key priv ≡ some msg

abbrev pub flag_final : ℕ
flag_final = 0x00

abbrev pub flag_relay : ℕ
flag_relay = 0x01

abbrev pub next_hop_size : ℕ
next_hop_size = 32

-- A `[32]byte` is a list of 32 bytes.
pub record Hop : Type 0 where
  pub peer_id : List ℕ
  pub pub_key : List ℕ

abbrev pub no_hop : Hop
no_hop = record { peer_id = []; pub_key = [] }

pub data Error : Type 0 where
  no_hops packet_too_short decrypt_failed empty_payload payload_too_short : Error
  encrypt_layer : ℕ → Error

pub data Result {ℓ} (A : Type ℓ) : Type ℓ where
  ok : A → Result A
  err : Error → Result A

infixl 5 ◌>>=◌
abbrev pub ◌>>=◌ {ℓ κ} : {A : Type ℓ} {B : Type κ} → Result A → (A → Result B) → Result B
ok a >>= f = f a
err e >>= f = err e

module _ (box : Box) where
  -- The body of the loop of `BuildCircuit` at index `i`. `draws i` is what `rand.Reader` gives to
  -- that layer: 32 bytes, or an error.
  unfoldable pub add_layer : (ℕ → Option (List ℕ)) → List Hop → ℕ → List ℕ → Result (List ℕ)
  add_layer draws hops i current =
      let next = (get_or hops (i + 1) no_hop).peer_id in
      let inner = if ltb i (length hops - 1) then flag_relay ∷ (next ++ current) else current in
      elim (draws i) [
        | none ↦ err (encrypt_layer i)
        | some seed ↦ ok (box.seal_anonymous seed inner (get_or hops i no_hop).pub_key)
      ]

  -- `for i := len(hops) - 1; i >= 0; i--`: the number is i + 1.
  unfoldable pub add_layers : (ℕ → Option (List ℕ)) → List Hop → ℕ → List ℕ → Result (List ℕ)
  add_layers draws hops zero current = ok current
  add_layers draws hops (suc i) current =
      add_layer draws hops i current >>= λ sealed. add_layers draws hops i sealed

  unfoldable pub build_circuit : (ℕ → Option (List ℕ)) → List ℕ → List Hop → Result (List ℕ)
  build_circuit draws plaintext [] = err no_hops
  build_circuit draws plaintext (hop ∷ hops) =
      add_layers draws (hop ∷ hops) (length (hop ∷ hops)) (flag_final ∷ plaintext)

  split_flag : List ℕ → Result (ℕ × List ℕ)
  split_flag [] = err empty_payload
  split_flag (flag ∷ payload) = ok (flag, payload)

  unfoldable pub unwrap_layer : List ℕ → List ℕ → List ℕ → Result (ℕ × List ℕ)
  unfolding split_flag
  unwrap_layer packet pub_key priv_key =
      if ltb (length packet) box.overhead
      then err packet_too_short
      else elim (box.open_anonymous packet pub_key priv_key) [
        | none ↦ err decrypt_failed
        | some decrypted ↦ split_flag decrypted
      ]

  -- Go's `int`: with no hop the result can be negative.
  unfoldable pub onion_size : ℕ → ℕ → ℤ
  onion_size plaintext_size hop_count =
      sub_ℕ (plaintext_size + hop_count * box.overhead + hop_count * (next_hop_size + 1) + 1)
        (next_hop_size + 1)

unfoldable pub get_next_hop : List ℕ → Result (List ℕ × List ℕ)
get_next_hop payload =
    if ltb (length payload) next_hop_size
    then err payload_too_short
    else ok (take next_hop_size payload, drop next_hop_size payload)
