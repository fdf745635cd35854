-- ===== src/Protocol/Frame.antt =====
-- internal/protocol/frame.go: length-prefixed frames.
-- A reader is the list of the bytes that are still to come; its end is the end of the stream.
pub mod RoundTrip
use goxfer.Base.{
  ℕ, ◌+◌, ◌*◌, ◌/◌, ◌%◌, ◌^◌, List, [], ◌∷◌, ◌++◌, Bytes, length, take, drop, is_empty, ltb, leb,
  if◌then◌else◌, Proc, Outcome, done, fail, guard, ◌>>=◌, ◌>>◌, Result, ok, err,
}

abbrev pub max_frame_size : ℕ
max_frame_size = 64 * 1024

pub data FrameError : Type 0 where
  payload_too_large incoming_too_large eof unexpected_eof : FrameError

-- binary.BigEndian.PutUint32 of `uint32(n)`
abbrev pub put_uint32 : ℕ → Bytes
put_uint32 n = (n / 2 ^ 24 % 256) ∷ (n / 2 ^ 16 % 256) ∷ (n / 2 ^ 8 % 256) ∷ (n % 256) ∷ []

-- binary.BigEndian.Uint32; a header has four bytes.
abbrev pub uint32 : Bytes → ℕ
uint32 (a ∷ b ∷ c ∷ d ∷ _) = a * 2 ^ 24 + b * 2 ^ 16 + c * 2 ^ 8 + d
uint32 _ = 0

unfoldable pub encode_frame : Bytes → Result FrameError Bytes
encode_frame payload =
    if ltb max_frame_size (length payload)
    then err payload_too_large
    else ok (put_uint32 (length payload) ++ payload)

-- io.ReadFull with a buffer of `n` bytes.
unfoldable pub read_full : ℕ → Proc Bytes FrameError Bytes
read_full n r =
    if leb n (length r)
    then done (take n r) (drop n r)
    else fail (if is_empty r then eof else unexpected_eof) []

unfoldable pub decode_frame : Proc Bytes FrameError Bytes
decode_frame = do
  header ← read_full 4
  let size = uint32 header
  guard (leb size max_frame_size) incoming_too_large
  read_full size
