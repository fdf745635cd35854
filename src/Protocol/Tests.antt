-- ===== src/Protocol/Tests.antt =====
-- internal/protocol: runs of the code on small inputs.
use goxfer.Base.{
  ◌≡◌, ◌↔◌, refl, [], ◌∷◌, ◌++◌, Bytes, codes, text_eq, pos, arith, done, fail, ok, ◌⊎◌,
}
use goxfer.Json.Utf8.{is_utf8}
use goxfer.Json.Plain.{plain_text}
use goxfer.Protocol.Frame.{eof, unexpected_eof, encode_frame, decode_frame, read_full}
use goxfer.Protocol.Frame.RoundTrip.{
  decode_frame-encode_frame, decode_frame-encode_frame_inv, decode_frame_truncated,
}
use goxfer.Protocol.Message.{
  Message, zero_message, type_file_start, type_file_chunk, validate_message, validate_as,
  marshal_message, encode_message, decode_message,
}
use goxfer.Protocol.Message.Validation.{IsValid, validate_message-eq-ok_iff}
use goxfer.Protocol.Message.RoundTrip.{
  without_chunk, decode_message-encode_message, decode_message-IsValid,
}

decode_frame-encode_frame_example :
    decode_frame (0 ∷ 0 ∷ 0 ∷ 2 ∷ 7 ∷ 8 ∷ 9 ∷ []) ≡ done (7 ∷ 8 ∷ []) (9 ∷ [])
unfolding encode_frame
decode_frame-encode_frame_example =
    decode_frame-encode_frame (7 ∷ 8 ∷ []) (0 ∷ 0 ∷ 0 ∷ 2 ∷ 7 ∷ 8 ∷ []) (9 ∷ []) refl

decode_frame-encode_frame_inv_example :
    (frame : Bytes) × (encode_frame (7 ∷ 8 ∷ []) ≡ ok frame)
    × (0 ∷ 0 ∷ 0 ∷ 2 ∷ 7 ∷ 8 ∷ 9 ∷ [] ≡ frame ++ (9 ∷ []))
unfolding decode_frame read_full
decode_frame-encode_frame_inv_example =
    decode_frame-encode_frame_inv (0 ∷ 0 ∷ 0 ∷ 2 ∷ 7 ∷ 8 ∷ 9 ∷ []) (7 ∷ 8 ∷ []) (9 ∷ []) refl refl

decode_frame_truncated_example :
    (decode_frame (0 ∷ 0 ∷ 0 ∷ 2 ∷ 7 ∷ []) ≡ fail eof [])
    ⊎ (decode_frame (0 ∷ 0 ∷ 0 ∷ 2 ∷ 7 ∷ []) ≡ fail unexpected_eof [])
unfolding encode_frame
decode_frame_truncated_example =
    decode_frame_truncated (7 ∷ 8 ∷ []) (0 ∷ 0 ∷ 0 ∷ 2 ∷ 7 ∷ []) (8 ∷ []) refl (omega arith)

-- A file_start for a file of five bytes, and a chunk.
abbrev start : Message
start = record zero_message {
  kind = type_file_start;
  file_id = codes "id";
  name = codes "f";
  size = pos 5;
}

abbrev chunk : Message
chunk = record zero_message {
  kind = type_file_chunk;
  file_id = codes "id";
  index = pos 1;
  chunk = 7 ∷ [];
}

validate_message-eq-ok_iff_example : (validate_message start ≡ ok tt) ↔ IsValid start
validate_message-eq-ok_iff_example = validate_message-eq-ok_iff start

decode_message-encode_message_example :
    decode_message plain_text (plain_text.print (marshal_message chunk)) ≡ ok (without_chunk chunk)
unfolding encode_message validate_message validate_as text_eq marshal_message is_utf8
decode_message-encode_message_example =
    decode_message-encode_message plain_text chunk (plain_text.print (marshal_message chunk))
      (record { size = refl; index = refl; offset = refl }) refl refl

decode_message-IsValid_example : IsValid (without_chunk chunk) × ((without_chunk chunk).chunk ≡ [])
decode_message-IsValid_example =
    decode_message-IsValid plain_text (plain_text.print (marshal_message chunk))
      (without_chunk chunk) decode_message-encode_message_example
