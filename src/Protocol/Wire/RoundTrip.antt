-- ===== src/Protocol/Wire/RoundTrip.antt =====
-- `Marshal` and `Unmarshal` are inverse to one another.
use relaymeshnet.Base.{ℕ, ◌+◌, ◌*◌, ◌≤◌, ◌<◌, ◌↔◌, ◌≡◌, refl, arith, List, [], ◌∷◌, ◌++◌}
use relaymeshnet.Base.{length, take, slice, length-take, length-append, take-append_exact, All, ◌∙◌}
use relaymeshnet.Base.Words.{IsByte, IsUint16, uint16, put_uint16}
use relaymeshnet.Protocol.Wire.{
  Frame, ok, err, frame_too_short, header_size, max_payload, magic, marshal, unmarshal,
}

pub record IsFrame (f : Frame) : Type 0 where
  pub version : IsUint16 f.version
  pub msg_type : IsUint16 f.msg_type

-- `Unmarshal` on a buffer that starts with the magic, when its payload is whole.
pub unmarshal-header :
    (a b c d e f : ℕ) (rest : List ℕ)
    → f + e * 256 ≤ length rest
    → unmarshal (magic ++ a ∷ b ∷ c ∷ d ∷ e ∷ f ∷ rest)
      ≡ ok (record {
        version = b + a * 256;
        msg_type = d + c * 256;
        payload = take (f + e * 256) rest;
      })
unfolding unmarshal
unmarshal-header a b c d e f rest h = ground arith

-- The bytes of a frame whose payload is not too long.
abbrev pub layout : Frame → List ℕ
layout f =
    magic
    ++ put_uint16 f.version
    ++ put_uint16 f.msg_type
    ++ put_uint16 (length f.payload)
    ++ f.payload

pub marshal_fits : (f : Frame) → length f.payload ≤ max_payload → marshal f ≡ ok (layout f)
unfolding marshal
marshal_fits f h = ground arith

pub marshal_ok :
    (f : Frame) (wire : List ℕ)
    → marshal f ≡ ok wire
    → (length f.payload ≤ max_payload) × (wire ≡ layout f)
unfolding marshal
marshal_ok f wire e = ground arith

-- A frame whose version and type are 16-bit numbers, once marshalled, is read back, also when other
-- bytes follow it in the buffer.
pub unmarshal-marshal :
    (f : Frame) (wire rest : List ℕ)
    → IsFrame f
    → marshal f ≡ ok wire
    → unmarshal (wire ++ rest) ≡ ok f
unmarshal-marshal f wire rest v e =
    let (small, shape) = marshal_ok f wire e in
    let n = length f.payload in
    rw shape (
      unmarshal-header _ _ _ _ _ _ (f.payload ++ rest) (omega (arith, length-append f.payload rest))
      ∙ ground (arith, take-append_exact n f.payload rest, v.version, v.msg_type))

-- What `Unmarshal` has checked when it returns a frame.
pub unmarshal_ok :
    (m n o p a b c d e g : ℕ) (rest : List ℕ) (f : Frame)
    → unmarshal (m ∷ n ∷ o ∷ p ∷ a ∷ b ∷ c ∷ d ∷ e ∷ g ∷ rest) ≡ ok f
    → (m ≡ b'R')
      × (n ≡ b'M')
      × (o ≡ b'N')
      × (p ≡ 1)
      × (g + e * 256 ≤ length rest)
      × (f.version ≡ b + a * 256)
      × (f.msg_type ≡ d + c * 256)
      × (f.payload ≡ take (g + e * 256) rest)
unfolding unmarshal
unmarshal_ok m n o p a b c d e g rest f q = ground arith

take_header :
    (m n o p a b c d e g k : ℕ) (rest : List ℕ)
    → take (header_size + k) (m ∷ n ∷ o ∷ p ∷ a ∷ b ∷ c ∷ d ∷ e ∷ g ∷ rest)
      ≡ m ∷ n ∷ o ∷ p ∷ a ∷ b ∷ c ∷ d ∷ e ∷ g ∷ take k rest
take_header m n o p a b c d e g k rest = ground arith

marshal_small :
    (f : Frame) (a b c d e g : ℕ)
    → All IsByte (a ∷ b ∷ c ∷ d ∷ e ∷ g ∷ [])
    → f.version ≡ b + a * 256
    → f.msg_type ≡ d + c * 256
    → length f.payload ≡ g + e * 256
    → marshal f ≡ ok (magic ++ a ∷ b ∷ c ∷ d ∷ e ∷ g ∷ f.payload)
unfolding marshal
marshal_small f a b c d e g h ev et el = ground arith

-- The bytes that `Unmarshal` accepts begin with the marshalling of its result.
pub marshal-unmarshal :
    (wire : List ℕ) (f : Frame)
    → All IsByte wire
    → unmarshal wire ≡ ok f
    → marshal f ≡ ok (take (header_size + length f.payload) wire)
unfolding unmarshal
marshal-unmarshal (m ∷ n ∷ o ∷ p ∷ a ∷ b ∷ c ∷ d ∷ e ∷ g ∷ rest) f h q =
    let (em, en, eo, ep, fits, ev, et, el) = unmarshal_ok m n o p a b c d e g rest f q in
    let size : length f.payload ≡ g + e * 256 =
      rw el (omega (arith, length-take (g + e * 256) rest)) in
    marshal_small f a b c d e g (omega arith) ev et size
    ∙ cc (em, en, eo, ep, el, size, take_header m n o p a b c d e g (length f.payload) rest)
marshal-unmarshal _ f h q = ground arith

-- A header that is not whole is refused first.
pub unmarshal_short :
    (wire : List ℕ)
    → length wire < header_size
    → unmarshal wire ≡ err (frame_too_short (length wire))
unfolding unmarshal
unmarshal_short wire h = ground arith

-- `Unmarshal` returns a frame exactly when the header is whole, starts with the magic, and
-- announces no more payload than there is.
pub unmarshal_accepts :
    (wire : List ℕ)
    → ((f : Frame) × (unmarshal wire ≡ ok f)) ↔ (
        (header_size ≤ length wire)
        × (take 4 wire ≡ magic)
        × (header_size + uint16 (slice wire 8 10) ≤ length wire))
unmarshal_accepts (m ∷ n ∷ o ∷ p ∷ a ∷ b ∷ c ∷ d ∷ e ∷ g ∷ rest) = (
  (λ (f, q).
      let (em, en, eo, ep, fits, ev, et, el) = unmarshal_ok m n o p a b c d e g rest f q in
      (omega arith, rw (em, en, eo, ep) refl, omega arith)),
  (λ (long, eq, fits). (
    record { version = b + a * 256; msg_type = d + c * 256; payload = take (g + e * 256) rest },
    cc (eq, unmarshal-header a b c d e g rest (omega arith)),
  )),
)
unmarshal_accepts wire =
    ((λ (f, q). absurd (cc (q, unmarshal_short wire (omega arith)))), (λ h. absurd (omega arith)))
