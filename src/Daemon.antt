-- ===== src/Daemon.antt =====
-- cmd/rmn-node/main.go, the node: its sessions and the handlers of its messages. encoding/json is the
-- parameter `json`, with its law in Messages.IsJson. A call that Go would stop with a panic has that
-- result. What a handler prints is an output. The proofs are in the modules below.
pub mod Sessions
pub mod Messages
pub mod Handshake
mod Runs
use relaymeshnet.Base.{
  ℕ, zero, suc, ◌+◌, ◌*◌, ◌/◌, ◌%◌, ◌≡◌, Bool, true, false, List, [], ◌∷◌, ◌++◌, map,
}
use relaymeshnet.Base.{
  Option, none, some, length, take, drop, get_or, replicate, ltb, if◌then◌else◌, bytes_eq,
}
use relaymeshnet.Base.Maps.{lookup, insert}
use relaymeshnet.Crypto.{Primitives, DhKeypair, IdentityKeypair, PreKeyBundle, X3dhResult, ok, err}
use relaymeshnet.Crypto.{generate_dh, new_pre_key_bundle, x3dh_send, x3dh_receive}
use relaymeshnet.Crypto.Identity.{encode_hex, decode_hex, generate_identity, peer_id}
use relaymeshnet.Crypto.Ratchet.{Suite, RatchetState, new_ratchet, encrypt, decrypt, plain}
use relaymeshnet.Crypto.Ratchet.{packet_too_short, not_authentic, nil_keypair, Outcome}

pub record ChatMsg : Type 0 where
  pub msg_type : List ℕ
  pub from : List ℕ
  pub text : List ℕ

-- `Marshal` and `Unmarshal` of a ChatMsg and of a map of strings.
pub record Json : Type 0 where
  pub encode_chat : ChatMsg → List ℕ
  pub decode_chat : List ℕ → Option ChatMsg
  pub encode_map : List (List ℕ × List ℕ) → List ℕ
  pub decode_map : List ℕ → Option (List (List ℕ × List ℕ))

pub record PeerSession : Type 0 where
  pub peer_id : List ℕ
  pub identity_pub : List ℕ
  pub ratchet : RatchetState

-- `pre_keys` are the entries 0 to 4 of the map, which nothing changes after NewNode.
pub record Node : Type 0 where
  pub identity : IdentityKeypair
  pub peer_id : List ℕ
  pub pre_key_store : PreKeyBundle
  pub spk : DhKeypair
  pub pre_keys : List DhKeypair
  pub peers : List (List ℕ × PeerSession)

abbrev pub x3dh_init : List ℕ
x3dh_init = b'x' ∷ b'3' ∷ b'd' ∷ b'h' ∷ b'_' ∷ b'i' ∷ b'n' ∷ b'i' ∷ b't' ∷ []

abbrev pub chat : List ℕ
chat = b'c' ∷ b'h' ∷ b'a' ∷ b't' ∷ []

abbrev pub key_type : List ℕ
key_type = b't' ∷ b'y' ∷ b'p' ∷ b'e' ∷ []

abbrev pub key_from : List ℕ
key_from = b'f' ∷ b'r' ∷ b'o' ∷ b'm' ∷ []

abbrev pub key_ik_pub : List ℕ
key_ik_pub = b'i' ∷ b'k' ∷ b'_' ∷ b'p' ∷ b'u' ∷ b'b' ∷ []

abbrev pub key_dh_pub : List ℕ
key_dh_pub = b'd' ∷ b'h' ∷ b'_' ∷ b'p' ∷ b'u' ∷ b'b' ∷ []

abbrev pub key_ek_pub : List ℕ
key_ek_pub = b'e' ∷ b'k' ∷ b'_' ∷ b'p' ∷ b'u' ∷ b'b' ∷ []

abbrev pub key_prekey_id : List ℕ
key_prekey_id = b'p' ∷ b'r' ∷ b'e' ∷ b'k' ∷ b'e' ∷ b'y' ∷ b'_' ∷ b'i' ∷ b'd' ∷ []

-- `copy` into a `[32]byte`.
abbrev pub to_array : List ℕ → List ℕ
to_array xs = take 32 (xs ++ replicate 32 0)

-- `%d` of a number that has at most `fuel` digits.
unfoldable pub decimal : ℕ → ℕ → List ℕ
decimal zero n = []
decimal (suc fuel) n =
    let front = decimal fuel (n / 10) in
    if ltb n 10 then (n + 48) ∷ [] else front ++ (n % 10 + 48) ∷ []

-- The value of a key, or the empty string.
abbrev pub value_of : List ℕ → List (List ℕ × List ℕ) → List ℕ
value_of key m = elim (lookup key m) [ some v ↦ v | none ↦ [] ]

pub data Started : Type 0 where
  started : Node → List ℕ → Started
  x3dh_failed panics : Started

-- A handler's new state and what it prints as the text of a chat message.
pub data Handled : Type 0 where
  handled : Node → Option (List ℕ) → Handled
  panic : Handled

pub data Sent : Type 0 where
  sent : Node → List ℕ → Sent
  no_session panics : Sent

-- The loop of NewNode over the one-time pre-keys; a key that is not drawn is nil, and its use a panic.
unfoldable pub draw_pre_keys : Primitives → List (Option (List ℕ)) → Option (List DhKeypair)
draw_pre_keys prim [] = some []
draw_pre_keys prim (draw ∷ draws) =
    let rest = draw_pre_keys prim draws in
    elim (generate_dh prim draw) [
      | none ↦ none
      | some key ↦ elim rest [ none ↦ none | some keys ↦ some (key ∷ keys) ]
    ]

module _ (prim : Primitives) where
  -- `none` is an error or a panic; the draws are those of the identity, the signed pre-key and the
  -- five one-time pre-keys.
  unfoldable pub new_node :
      Option (List ℕ × List ℕ × List ℕ) → Option (List ℕ) → List (Option (List ℕ)) → Option Node
  unfolding draw_pre_keys
  new_node identity_draw spk_draw draws = elim (generate_identity prim identity_draw) [
    | none ↦ none
    | some ik ↦ elim (generate_dh prim spk_draw) [
      | none ↦ none
      | some spk ↦ elim (draw_pre_keys prim draws) [
        | none ↦ none
        | some keys ↦ some (record {
          identity = ik;
          peer_id = peer_id prim ik.pub_key;
          pre_key_store =
              new_pre_key_bundle prim ik spk.pub_key (map (λ (k : DhKeypair). k.pub_key) keys);
          spk = spk;
          pre_keys = keys;
          peers = [];
        })
      ]
    ]
  ]

  abbrev pub with_session : List ℕ → List ℕ → RatchetState → Node → Node
  with_session id identity_pub ratchet n =
      let session : PeerSession = record {
        peer_id = id;
        identity_pub = identity_pub;
        ratchet = ratchet;
      } in
      record n { peers = insert id session n.peers }

module _ (prim : Primitives) (suite : Suite) (json : Json) where
  -- The map that is sent in `InitiateSession`.
  abbrev pub init_data : Node → X3dhResult → List (List ℕ × List ℕ)
  init_data n result =
      (key_type, x3dh_init)
      ∷ (key_from, n.peer_id)
      ∷ (key_ik_pub, encode_hex n.identity.pub_key)
      ∷ (key_dh_pub, encode_hex n.identity.dh_pub)
      ∷ (key_ek_pub, encode_hex result.ek_pub)
      ∷ (key_prekey_id, decimal 10 result.pre_key_id)
      ∷ []

  -- The draws are those of the ephemeral key and of the ratchet's key pair. The payload is what the
  -- transport is given to send, whose error is dropped.
  unfoldable pub initiate_session :
      Option (List ℕ) → Option (List ℕ) → List ℕ → PreKeyBundle → Node → Started
  unfolding encode_hex decimal
  initiate_session ek_draw dh_draw id bundle n = elim (x3dh_send prim ek_draw n.identity bundle) [
    | err e ↦ x3dh_failed
    | ok result ↦ elim (generate_dh prim dh_draw) [
      | none ↦ panics
      | some our_dh ↦
          let ratchet =
            new_ratchet prim result.shared_secret result.ad our_dh bundle.signed_pre_key in
          started (with_session prim id bundle.identity_key ratchet n)
            (json.encode_map (init_data n result))
    ]
  ]

  unfoldable pub handle_x3dh_receive : Option (List ℕ) → List ℕ → List ℕ → Node → Handled
  unfolding lookup decode_hex
  handle_x3dh_receive dh_draw id payload n = elim (json.decode_map payload) [
    | none ↦ handled n none
    | some fields ↦
        let ik_pub = decode_hex (value_of key_ik_pub fields) in
        let ek_pub = to_array (decode_hex (value_of key_ek_pub fields)) in
        let result : X3dhResult = record {
          shared_secret = replicate 32 0;
          ad = ik_pub ++ n.identity.pub_key ++ ek_pub;
          ek_pub = ek_pub;
          pre_key_id = 0;
        } in
        let (shared_secret, ad) = x3dh_receive prim n.identity n.spk n.pre_keys result in
        elim (generate_dh prim dh_draw) [
          | none ↦ panic
          | some our_dh ↦
              let identity_pub : List ℕ = elim (lookup id n.peers) [
                | some p ↦ p.identity_pub
                | none ↦ []
              ] in
              handled
                (with_session prim id identity_pub (new_ratchet prim shared_secret ad our_dh ek_pub)
                  n)
                none
        ]
  ]

  -- The session's ratchet is a pointer, so its change stays in the map. A text is printed behind
  -- `peerID[:8]`, which panics on a shorter id.
  abbrev pub after_decrypt : List ℕ → PeerSession → Node → RatchetState × Outcome → Handled
  after_decrypt id s n (r, plain text) =
      if ltb (length id) 8
      then panic
      else handled (record n { peers = insert id (record s { ratchet = r }) n.peers }) (some text)
  after_decrypt id s n (r, packet_too_short) =
      handled (record n { peers = insert id (record s { ratchet = r }) n.peers }) none
  after_decrypt id s n (r, not_authentic) =
      handled (record n { peers = insert id (record s { ratchet = r }) n.peers }) none
  after_decrypt id s n (r, nil_keypair) = panic

  -- `peerID[:8]` and `raw[34:]` panic on a shorter slice. `draw` is for the ratchet.
  unfoldable pub handle_chat : Option (List ℕ) → List ℕ → List ℕ → Node → Handled
  unfolding lookup
  handle_chat draw id raw n = elim (lookup id n.peers) [
    | none ↦ if ltb (length id) 8 then panic else handled n none
    | some session ↦
        if ltb (length raw) 34
        then panic
        else after_decrypt id session n (decrypt prim suite draw (drop 34 raw) session.ratchet)
  ]

  unfoldable pub handle_incoming : Option (List ℕ) → List ℕ → List ℕ → Node → Handled
  unfolding handle_x3dh_receive handle_chat
  handle_incoming draw id payload n = elim (json.decode_chat payload) [
    | none ↦ handled n none
    | some msg ↦
        if bytes_eq msg.msg_type x3dh_init
        then handle_x3dh_receive draw id payload n
        else (if bytes_eq msg.msg_type chat then handle_chat draw id payload n else handled n none)
  ]

  unfoldable pub send_chat : List ℕ → List ℕ → Node → Sent
  unfolding lookup
  send_chat id text n = elim (lookup id n.peers) [
    | none ↦ if ltb (length id) 8 then panics else no_session
    | some session ↦
        let (ratchet, packet) = encrypt prim suite text session.ratchet in
        sent (record n { peers = insert id (record session { ratchet = ratchet }) n.peers })
          (json.encode_chat
            (record { msg_type = chat; from = n.peer_id; text = encode_hex packet }))
  ]
