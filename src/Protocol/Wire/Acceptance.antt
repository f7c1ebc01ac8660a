-- ===== src/Protocol/Wire/Acceptance.antt =====
-- Which frames `Marshal` writes, and what `Unmarshal` says of a frame that is cut off.
use relaymeshnet.Base.{ℕ, suc, ◌+◌, ◌-◌, ◌*◌, ◌<◌, ◌≡◌, arith, List, ◌∷◌, ◌++◌, ◌⊎◌, inl, inr}
use relaymeshnet.Base.{length, length-append, All, Bool-cases, ltb}
use relaymeshnet.Base.Words.{IsByte}
use relaymeshnet.Protocol.Wire.{Frame, ok, err, frame_too_short, payload_truncated}
use relaymeshnet.Protocol.Wire.{
  payload_too_large, header_size, max_payload, magic, marshal, unmarshal,
}
use relaymeshnet.Protocol.Wire.RoundTrip.{layout, marshal_fits, unmarshal_short, marshal_ok}

-- `Marshal` refuses payloads above 65535 bytes, and writes a header of 10 bytes and the payload,
-- all of them bytes, for every other frame of bytes.
pub marshal_total :
    (f : Frame)
    → All IsByte f.payload
    → ((max_payload < length f.payload) × (marshal f ≡ err (payload_too_large (length f.payload))))
      ⊎ ((wire : List ℕ) × (marshal f ≡ ok wire)
          × (length wire ≡ header_size + length f.payload)
          × All IsByte wire)
unfolding marshal
marshal_total f h = elim (Bool-cases (ltb max_payload (length f.payload))) [
  | inl large ↦ inl (ground arith, ground arith)
  | inr small ↦ inr (layout f, marshal_fits f (ground arith), omega arith, ground arith)
]

unmarshal_cut :
    (a b c d e f : ℕ) (rest : List ℕ)
    → length rest < f + e * 256
    → unmarshal (magic ++ a ∷ b ∷ c ∷ d ∷ e ∷ f ∷ rest)
      ≡ err (payload_truncated (length rest) (f + e * 256))
unfolding unmarshal
unmarshal_cut a b c d e f rest h = ground arith

-- A frame that is cut off anywhere is refused: `Unmarshal` says that the header is too short, or
-- that the payload is, with the length that the whole frame has.
pub unmarshal_truncated :
    (f : Frame) (wire front back : List ℕ) (x : ℕ)
    → marshal f ≡ ok wire
    → wire ≡ front ++ x ∷ back
    → (unmarshal front ≡ err (frame_too_short (length front)))
      ⊎ (unmarshal front ≡ err (payload_truncated (length front - header_size) (length f.payload)))
unmarshal_truncated f wire (m ∷ n ∷ o ∷ p ∷ a ∷ b ∷ c ∷ d ∷ e ∷ g ∷ rest) back x q s =
    let (small, shape) = marshal_ok f wire q in
    let size : g + e * 256 ≡ length f.payload = ground arith in
    let cut : length rest < g + e * 256 = ground (arith, length-append rest (x ∷ back)) in
    let left : suc (suc (suc (suc (suc (suc (suc (suc (suc (suc (length rest)))))))))) - header_size
        ≡ length rest =
      omega arith in
    inr (cc (left, unmarshal_cut a b c d e g rest cut, s, shape, size))
unmarshal_truncated f wire front back x q s = inl (unmarshal_short front (omega arith))
