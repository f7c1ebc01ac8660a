-- ===== src/Daemon/Runs.antt =====
-- Two nodes with toy primitives and a toy codec, and the theorems at them.
use relaymeshnet.Base.{
  bytes_eq, ℕ, zero, suc, ◌<◌, ◌≡◌, ◌⊎◌, ◌↔◌, refl, ap, arith, true, List, [], ◌∷◌, ◌++◌, All,
}
use relaymeshnet.Base.{
  Option, none, some, length, take, drop, replicate, length-append, take-append_exact,
  drop-append_exact,
}
use relaymeshnet.Base.Words.{IsByte}
use relaymeshnet.Base.Maps.{lookup, insert}
use relaymeshnet.Crypto.{
  Primitives, DhKeypair, IdentityKeypair, is_zero, new_pre_key_bundle, zero_key,
}
use relaymeshnet.Crypto.Agreement.{IsPrimitives}
use relaymeshnet.Crypto.Ratchet.{Suite, RatchetState, decrypt, new_ratchet, open_packet}
use relaymeshnet.Crypto.Ratchet.{try_skipped_message_keys, skip_keys, receive_key}
use relaymeshnet.Daemon.{
  ChatMsg, Json, Node, PeerSession, started, handled, panic, value_of, key_type, with_session,
  x3dh_init,
}
use relaymeshnet.Daemon.{initiate_session, handle_incoming, handle_chat}
use relaymeshnet.Daemon.Sessions.{AllKeep, Stops, handle_incoming-AllKeep, handle_chat_panics}
use relaymeshnet.Daemon.Messages.{IsJson}
use relaymeshnet.Daemon.Handshake.{IsCurve, IsNode, HasRatchet, handshake}

-- A codec: a string is written with its length in front.
abbrev toy_encode : List (List ℕ × List ℕ) → List ℕ
toy_encode [] = []
toy_encode ((k, v) ∷ m) = length k ∷ (k ++ (length v ∷ (v ++ toy_encode m)))

abbrev with_entry :
    List ℕ → List ℕ → Option (List (List ℕ × List ℕ)) → Option (List (List ℕ × List ℕ))
with_entry k v none = none
with_entry k v (some m) = some ((k, v) ∷ m)

abbrev toy_value :
    (List ℕ → Option (List (List ℕ × List ℕ))) → List ℕ → List ℕ → Option (List (List ℕ × List ℕ))
toy_value go k [] = none
toy_value go k (n ∷ xs) = with_entry k (take n xs) (go (drop n xs))

abbrev toy_decode : ℕ → List ℕ → Option (List (List ℕ × List ℕ))
toy_decode zero xs = none
toy_decode (suc fuel) [] = some []
toy_decode (suc fuel) (n ∷ xs) = toy_value (toy_decode fuel) (take n xs) (drop n xs)

toy_decode-toy_encode :
    (m : List (List ℕ × List ℕ)) (fuel : ℕ)
    → length m < fuel
    → toy_decode fuel (toy_encode m) ≡ some m
toy_decode-toy_encode m zero h = absurd (omega (arith, h))
toy_decode-toy_encode [] (suc fuel) h = refl
toy_decode-toy_encode ((k, v) ∷ m) (suc fuel) h =
    let rest = length v ∷ (v ++ toy_encode m) in
    let key = take-append_exact (length k) k rest refl in
    let after = drop-append_exact (length k) k rest refl in
    let value = take-append_exact (length v) v (toy_encode m) refl in
    let last = drop-append_exact (length v) v (toy_encode m) refl in
    rw (key, after, value, last, toy_decode-toy_encode m fuel (omega (arith, h))) refl

length-toy_encode : (m : List (List ℕ × List ℕ)) → length m < suc (length (toy_encode m))
length-toy_encode [] = omega arith
length-toy_encode ((k, v) ∷ m) = omega (
  arith,
  length-toy_encode m,
  length-append v (toy_encode m),
  length-append k (length v ∷ (v ++ toy_encode m)),
)

abbrev read_map : List ℕ → Option (List (List ℕ × List ℕ))
read_map payload = toy_decode (suc (length payload)) payload

abbrev typed_as : Option (List (List ℕ × List ℕ)) → Option ChatMsg
typed_as none = none
typed_as (some m) = some (record { msg_type = value_of key_type m; from = []; text = [] })

abbrev json : Json
json = record {
  encode_chat = λ msg. toy_encode ((key_type, msg.msg_type) ∷ []);
  decode_chat = λ payload. typed_as (read_map payload);
  encode_map = toy_encode;
  decode_map = read_map;
}

json-IsJson : IsJson json
json-IsJson = record {
  map_read = λ m h. (m, toy_decode-toy_encode m _ (length-toy_encode m), λ k. refl);
  type_read = λ m h. ([], [], ap typed_as (toy_decode-toy_encode m _ (length-toy_encode m)));
}

abbrev prim : Primitives
prim = record {
  base_mult = λ a. replicate 32 1;
  mult = λ a b. replicate 32 2;
  sign = λ priv msg. msg;
  verify = λ key msg sig. true;
  hash = λ msg. replicate 32 3;
}

prim-IsPrimitives : IsPrimitives prim (λ key priv. key ≡ priv)
prim-IsPrimitives = record { commutes = λ a b. refl; verifies = λ key priv msg h. refl }

ones-All : (n : ℕ) → All IsByte (replicate n 1)
ones-All zero = tt
ones-All (suc n) = (omega arith, ones-All n)

prim-IsCurve : IsCurve prim
prim-IsCurve k = (ones-All 32, refl)

abbrev suite : Suite
suite = record {
  kdf = λ a. a;
  hmac = λ a b. replicate 32 4;
  seal = λ key nonce text ad. text;
  unseal = λ key nonce text ad. some text;
}

abbrev identity : ℕ → IdentityKeypair
identity n = record {
  pub_key = n ∷ [];
  priv_key = n ∷ [];
  dh_key = n ∷ [];
  dh_pub = replicate 32 1;
}

abbrev otk : DhKeypair
otk = record { pub_key = replicate 32 1; priv_key = 6 ∷ [] }

abbrev node : ℕ → Node
node n = record {
  identity = identity n;
  peer_id = n ∷ [];
  pre_key_store = new_pre_key_bundle prim (identity n) (replicate 32 1) (otk.pub_key ∷ []);
  spk = otk;
  pre_keys = otk ∷ [];
  peers = [];
}

node-IsNode :
    IsNode prim suite json json-IsJson
      (λ key priv. key ≡ priv)
      prim-IsPrimitives
      prim-IsCurve
      (node 8)
      otk
      []
unfolding is_zero
node-IsNode = record {
  signs = refl;
  dh_pub = refl;
  spk_pub = refl;
  otk_pub = refl;
  nonzero = refl;
  keys = refl;
  bundle = refl;
}

handshake_example :
    (alice' : Node) × (bob' : Node) × (payload : List ℕ) × (shared : List ℕ) × (a : RatchetState)
    × (b : RatchetState) × (initiate_session prim suite json
          (some (5 ∷ []))
          (some (4 ∷ []))
          (8 ∷ [])
          (node 8).pre_key_store
          (node 7)
        ≡ started alice' payload)
    × (handle_incoming prim suite json (some (3 ∷ [])) (7 ∷ []) payload (node 8)
        ≡ handled bob' none)
    × HasRatchet alice' (8 ∷ []) a
    × HasRatchet bob' (7 ∷ []) b
    × (a.ad ≡ b.ad)
    × (a.root_key ≡ prim.hash (prim.mult (7 ∷ []) (replicate 32 1) ++ shared))
    × (b.root_key ≡ prim.hash (zero_key ++ shared))
handshake_example =
    handshake prim suite json json-IsJson (λ key priv. key ≡ priv) prim-IsPrimitives prim-IsCurve
      (5 ∷ []) (4 ∷ []) (3 ∷ []) (7 ∷ []) (8 ∷ []) (node 7) (node 8) otk [] node-IsNode
      (omega arith, tt) (omega arith, tt) (ones-All 32)

abbrev peer : List ℕ
peer = 7 ∷ []

-- The node with a session of the peer 9, at an init message of the peer 7.
abbrev busy : Node
busy = with_session prim (9 ∷ []) [] (new_ratchet prim [] [] otk []) (node 8)

abbrev init_message : List ℕ
init_message = toy_encode ((key_type, x3dh_init) ∷ [])

handle_incoming-AllKeep_example :
    AllKeep (9 ∷ []) busy (handle_incoming prim suite json (some (3 ∷ [])) peer init_message busy)
handle_incoming-AllKeep_example =
    handle_incoming-AllKeep (9 ∷ []) peer busy (unfold bytes_eq in refl) prim suite json
      (some (3 ∷ [])) init_message

-- The node with a session of the peer 7, whose id is too short for the text that is printed.
abbrev talking : Node
talking = with_session prim peer [] (new_ratchet prim [] [] otk []) (node 8)

abbrev message : List ℕ
message = replicate 70 0

handle_chat_panics_example :
    (handle_chat prim suite json (some peer) peer message talking ≡ panic) ↔ (
      ((lookup peer talking.peers ≡ none) × (length peer < 8))
      ⊎ ((s : PeerSession) × (lookup peer talking.peers ≡ some s)
          × ((length message < 34)
              ⊎ Stops peer (decrypt prim suite (some peer) (drop 34 message) s.ratchet).1)))
handle_chat_panics_example = handle_chat_panics prim suite json (some peer) peer message talking

-- The message is decrypted, and the node stops.
message_stops : handle_chat prim suite json (some peer) peer message talking ≡ panic
unfolding handle_chat lookup insert new_ratchet decrypt open_packet try_skipped_message_keys
    skip_keys receive_key bytes_eq
message_stops = refl
