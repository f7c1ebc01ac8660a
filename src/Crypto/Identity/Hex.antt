-- ===== src/Crypto/Identity/Hex.antt =====
-- Hexadecimal text is read back, so a peer id is its 16 bytes of hash.
use relaymeshnet.Base.{
  ℕ, ◌+◌, ◌*◌, ◌/◌, ◌%◌, ◌<◌, ◌≡◌, ◌↔◌, refl, sym, ap, ◌∙◌, arith, true, List, [], ◌∷◌, All, some,
}
use relaymeshnet.Base.{take, All-take, bytes_eq, bytes_eq→eq, bytes_eq_refl}
use relaymeshnet.Base.Words.{IsByte, IsAscii}
use relaymeshnet.Crypto.{Primitives}
use relaymeshnet.Crypto.Identity.{
  hex_digit, hex_value, encode_hex, decode_hex, peer_id, verify_peer_id,
}

hex_value-hex_digit : (n : ℕ) → n < 16 → hex_value (hex_digit n) ≡ some n
hex_value-hex_digit n h = ground arith

pub decode_hex-encode_hex : (xs : List ℕ) → All IsByte xs → decode_hex (encode_hex xs) ≡ xs
unfolding decode_hex encode_hex
decode_hex-encode_hex [] h = refl
decode_hex-encode_hex (x ∷ xs) h =
    let high = hex_value-hex_digit (x / 16) (omega (arith, h.0)) in
    let low = hex_value-hex_digit (x % 16) (omega arith) in
    let whole : x / 16 * 16 + x % 16 ≡ x = omega arith in
    rw (high, low, whole) (ap (λ l. x ∷ l) (decode_hex-encode_hex xs h.1))

hex_digit-IsAscii : (n : ℕ) → n < 16 → IsAscii (hex_digit n)
hex_digit-IsAscii n h = ground arith

pub encode_hex-IsAscii : (xs : List ℕ) → All IsByte xs → All IsAscii (encode_hex xs)
unfolding encode_hex
encode_hex-IsAscii [] h = tt
encode_hex-IsAscii (x ∷ xs) h = (
  hex_digit-IsAscii (x / 16) (omega (arith, h.0)),
  (hex_digit-IsAscii (x % 16) (omega arith), encode_hex-IsAscii xs h.1),
)

decode_hex-peer_id :
    (prim : Primitives) (key : List ℕ)
    → ((msg : List ℕ) → All IsByte (prim.hash msg))
    → decode_hex (peer_id prim key) ≡ take 16 (prim.hash key)
unfolding peer_id
decode_hex-peer_id prim key h =
    decode_hex-encode_hex (take 16 (prim.hash key)) (All-take IsByte 16 (prim.hash key) (h key))

-- If SHA-256 gives bytes, `DecodeString` reads the first 16 bytes of the key's hash back from its
-- `PeerID`, and `Verify` accepts a key for the id of another exactly when these bytes of the two
-- hashes are the same.
pub verify_peer_id_lem :
    (prim : Primitives) (key other : List ℕ)
    → ((msg : List ℕ) → All IsByte (prim.hash msg))
    → (decode_hex (peer_id prim key) ≡ take 16 (prim.hash key))
      × ((verify_peer_id prim key (peer_id prim other) ≡ true)
          ↔ (take 16 (prim.hash key) ≡ take 16 (prim.hash other)))
unfolding verify_peer_id peer_id
verify_peer_id_lem prim key other h =
    let mine = decode_hex-peer_id prim key h in
    let theirs = decode_hex-peer_id prim other h in
    (
      mine,
      (
        (λ e.
            sym mine
            ∙ ap decode_hex (bytes_eq→eq (peer_id prim key) (peer_id prim other) e)
            ∙ theirs),
        (λ e.
            ap (bytes_eq (peer_id prim key)) (ap encode_hex (sym e))
            ∙ bytes_eq_refl (peer_id prim key)),
      ),
    )
