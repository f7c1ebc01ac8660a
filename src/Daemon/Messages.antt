-- ===== src/Daemon/Messages.antt =====
-- What encoding/json does with the maps that a node sends: Daemon's parameter `json` and its law.
use relaymeshnet.Base.{ℕ, ◌≡◌, refl, List, [], ◌∷◌, All}
use relaymeshnet.Base.{some, Bool, true, ◌&&◌, not, arith, ltb, bytes_eq}
use relaymeshnet.Base.Words.{IsByte, IsAscii}
use relaymeshnet.Base.Maps.{lookup, IsMap}
use relaymeshnet.Crypto.{Primitives, X3dhResult}
use relaymeshnet.Crypto.Identity.Hex.{encode_hex-IsAscii}
use relaymeshnet.Crypto.Ratchet.{Suite}
use relaymeshnet.Daemon.{Json, Node, init_data, x3dh_init, key_type, decimal, value_of}

-- Bytes of ASCII without the upper-case letters, so that no other such key is taken for the key where
-- encoding/json does not tell cases apart.
abbrev pub is_key : List ℕ → Bool
is_key [] = true
is_key (c ∷ k) = ltb c 128 && not (ltb 64 c && ltb c 91) && is_key k

-- A map of Go with such keys, and texts of ASCII.
abbrev pub IsObject : List (List ℕ × List ℕ) → Type 0
IsObject m = IsMap m × All (λ (e : List ℕ × List ℕ). (is_key e.0 ≡ true) × All IsAscii e.1) m

-- Such a map is read back, in some order, and as a chat message it has the type of the map.
pub record IsJson (json : Json) : Type 0 where
  pub map_read :
      (m : List (List ℕ × List ℕ))
      → IsObject m
      → (fields : List (List ℕ × List ℕ)) × (json.decode_map (json.encode_map m) ≡ some fields)
        × ((k : List ℕ) → lookup k fields ≡ lookup k m)
  pub type_read :
      (m : List (List ℕ × List ℕ))
      → IsObject m
      → (from text : List ℕ) × (json.decode_chat (json.encode_map m)
          ≡ some (record { msg_type = value_of key_type m; from = from; text = text }))

pub value_of_same :
    (key : List ℕ) (fields m : List (List ℕ × List ℕ))
    → lookup key fields ≡ lookup key m
    → value_of key fields ≡ value_of key m
value_of_same key fields m e = rw (e, value_of) refl

module _ (prim : Primitives) (suite : Suite) (json : Json) where
  x3dh_init-IsAscii : All IsAscii x3dh_init
  x3dh_init-IsAscii = ground arith

  pub init_data-IsObject :
      (n : Node) (r : X3dhResult)
      → All IsAscii n.peer_id
      → All IsByte n.identity.pub_key
      → All IsByte n.identity.dh_pub
      → All IsByte r.ek_pub
      → r.pre_key_id ≡ 0
      → IsObject (init_data prim suite json n r)
  unfolding lookup bytes_eq decimal
  init_data-IsObject n r id ik dh ek num = (
    (refl, (refl, (refl, (refl, (refl, (refl, tt)))))),
    (
      (refl, x3dh_init-IsAscii),
      (
        (refl, id),
        (
          (refl, encode_hex-IsAscii n.identity.pub_key ik),
          (
            (refl, encode_hex-IsAscii n.identity.dh_pub dh),
            ((refl, encode_hex-IsAscii r.ek_pub ek), ((refl, rw (num) (omega arith, tt)), tt)),
          ),
        ),
      ),
    ),
  )
