-- ===== src/Protocol/Wire.antt =====
-- pkg/protocol/wire.go. A byte slice is a list of numbers below 256, and a uint16 a number below
-- 2 ^ 16. The proofs are in the modules below.
pub mod RoundTrip
pub mod Acceptance
mod Runs
use relaymeshnet.Base.{ℕ, ◌+◌, ◌-◌, ◌%◌, ◌^◌, List, [], ◌∷◌, ◌++◌}
use relaymeshnet.Base.{length, take, drop, slice, ltb, bytes_eq, if◌then◌else◌, not}
use relaymeshnet.Base.Words.{put_uint16, uint16}

abbrev pub header_size : ℕ
header_size = 4 + 2 + 2 + 2

abbrev pub max_payload : ℕ
max_payload = 65535

-- 'R', 'M', 'N', 0x01
abbrev pub magic : List ℕ
magic = b'R' ∷ b'M' ∷ b'N' ∷ 0x01 ∷ []

pub record Frame : Type 0 where
  pub version : ℕ
  pub msg_type : ℕ
  pub payload : List ℕ

-- Each error carries the numbers or bytes that its text shows.
pub data Error : Type 0 where
  payload_too_large : ℕ → Error
  frame_too_short : ℕ → Error
  invalid_magic : List ℕ → Error
  payload_truncated : ℕ → ℕ → Error

pub data Result {ℓ} (A : Type ℓ) : Type ℓ where
  ok : A → Result A
  err : Error → Result A

-- `uint16(len(f.Payload))` wraps; the guard above it keeps the length in range.
unfoldable pub marshal : Frame → Result (List ℕ)
marshal f =
    if ltb max_payload (length f.payload)
    then err (payload_too_large (length f.payload))
    else ok (
        magic
        ++ put_uint16 f.version
        ++ put_uint16 f.msg_type
        ++ put_uint16 (length f.payload % 2 ^ 16)
        ++ f.payload)

unfoldable pub unmarshal : List ℕ → Result Frame
unfolding bytes_eq
unmarshal frame =
    if ltb (length frame) header_size
    then err (frame_too_short (length frame))
    else (if not (bytes_eq (take 4 frame) magic)
        then err (invalid_magic (take 4 frame))
        else (let size = uint16 (slice frame 8 10) in
            if ltb (length frame) (header_size + size)
            then err (payload_truncated (length frame - header_size) size)
            else ok (record {
              version = uint16 (slice frame 4 6);
              msg_type = uint16 (slice frame 6 8);
              payload = slice frame header_size (header_size + size);
            })))
