-- ===== src/Protocol/Wire/Runs.antt =====
-- Runs of pkg/protocol/wire.go on a chat message, and the theorems at that frame.
use relaymeshnet.Base.{ℕ, ◌-◌, ◌≡◌, ◌⊎◌, refl, arith, List, [], ◌∷◌, ◌++◌}
use relaymeshnet.Base.{length, take}
use relaymeshnet.Protocol.Wire.{Frame, ok, err, frame_too_short, payload_truncated, invalid_magic}
use relaymeshnet.Protocol.Wire.{header_size, marshal, unmarshal}
use relaymeshnet.Protocol.Wire.RoundTrip.{unmarshal-marshal, marshal-unmarshal}
use relaymeshnet.Protocol.Wire.Acceptance.{unmarshal_truncated}

-- MsgChat with the payload "hi".
abbrev chat : Frame
chat = record { version = 1; msg_type = 0x0001; payload = b'h' ∷ b'i' ∷ [] }

abbrev chat_wire : List ℕ
chat_wire = b'R' ∷ b'M' ∷ b'N' ∷ 1 ∷ 0 ∷ 1 ∷ 0 ∷ 1 ∷ 0 ∷ 2 ∷ b'h' ∷ b'i' ∷ []

marshal-chat : marshal chat ≡ ok chat_wire
unfolding marshal
marshal-chat = refl

unmarshal-chat : unmarshal (chat_wire ++ 7 ∷ []) ≡ ok chat
unfolding unmarshal
unmarshal-chat = refl

unmarshal_wrong_magic :
    unmarshal (0 ∷ chat_wire) ≡ err (invalid_magic (0 ∷ b'R' ∷ b'M' ∷ b'N' ∷ []))
unfolding unmarshal
unmarshal_wrong_magic = refl

unmarshal-marshal_example : unmarshal (chat_wire ++ 7 ∷ []) ≡ ok chat
unmarshal-marshal_example =
    unmarshal-marshal chat chat_wire (7 ∷ [])
      (record { version = omega arith; msg_type = omega arith }) marshal-chat

marshal-unmarshal_example : marshal chat ≡ ok (take 12 (chat_wire ++ 7 ∷ []))
marshal-unmarshal_example =
    marshal-unmarshal (chat_wire ++ 7 ∷ []) chat (omega arith) unmarshal-chat

unmarshal_truncated_example :
    (unmarshal (take 11 chat_wire) ≡ err (frame_too_short (length (take 11 chat_wire))))
    ⊎ (unmarshal (take 11 chat_wire)
        ≡ err (payload_truncated (length (take 11 chat_wire) - header_size) (length chat.payload)))
unmarshal_truncated_example =
    unmarshal_truncated chat chat_wire (take 11 chat_wire) [] b'i' marshal-chat refl
