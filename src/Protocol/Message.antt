-- ===== src/Protocol/Message.antt =====
-- internal/protocol/message.go: the messages of a transfer and their JSON form.
pub mod Validation
pub mod RoundTrip
use mathlib.Core.Option
use goxfer.Base.{
  ℕ, ◌*◌, Bool, true, false, ◌||◌, ◌++◌, [], ◌∷◌, Option, none, some, Bytes, Text, codes, text_eq,
  is_empty, ℤ, pos, negsuc, is_negative, ltb, if◌then◌else◌, Result, ok, err,
}
use goxfer.Json.{
  Json, JsonObject, JsonText, text, names_field, read_text, read_int64, read_bool, omit_empty,
  omit_zero, omit_false, set_fields,
}

abbrev pub file_chunk_size : ℕ
file_chunk_size = 32 * 1024

abbrev pub type_file_start : Text
type_file_start = codes "file_start"

abbrev pub type_file_chunk : Text
type_file_chunk = codes "file_chunk"

abbrev pub type_file_complete : Text
type_file_complete = codes "file_complete"

abbrev pub type_file_checksum : Text
type_file_checksum = codes "file_checksum"

abbrev pub type_file_resume : Text
type_file_resume = codes "file_resume"

abbrev pub type_ready : Text
type_ready = codes "ready"

pub record Message : Type 0 where
  pub kind : Text
  pub file_id : Text
  pub name : Text
  pub size : ℤ
  pub index : ℤ
  pub chunk : Bytes
  pub checksum : Text
  pub resume : Bool
  pub offset : ℤ

-- `Message{}`
abbrev pub zero_message : Message
zero_message = record {
  kind = [];
  file_id = [];
  name = [];
  size = pos 0;
  index = pos 0;
  chunk = [];
  checksum = [];
  resume = false;
  offset = pos 0;
}

pub data MessageError : Type 0 where
  bad_file_start bad_file_chunk bad_file_complete bad_file_checksum bad_file_resume : MessageError
  unknown_type bad_json : MessageError

-- `size < -1`
abbrev pub below_minus_one : ℤ → Bool
below_minus_one (pos n) = false
below_minus_one (negsuc n) = ltb 0 n

abbrev reject_if : Bool → MessageError → Result MessageError (Unit {0})
reject_if true e = err e
reject_if false e = ok tt

-- The `switch` on the type, which is `k`.
unfoldable pub validate_as : Text → Message → Result MessageError (Unit {0})
validate_as k m =
    if text_eq k type_file_start
    then reject_if (is_empty m.file_id || is_empty m.name || below_minus_one m.size) bad_file_start
    else if text_eq k type_file_chunk
    then reject_if (is_empty m.file_id || is_negative m.index) bad_file_chunk
    else if text_eq k type_file_complete
    then reject_if (is_empty m.file_id) bad_file_complete
    else if text_eq k type_file_checksum
    then reject_if (is_empty m.file_id || is_empty m.checksum) bad_file_checksum
    else if text_eq k type_file_resume
    then reject_if (is_empty m.file_id || is_negative m.offset) bad_file_resume
    else if text_eq k type_ready
    then ok tt
    else err unknown_type

unfoldable pub validate_message : Message → Result MessageError (Unit {0})
unfolding validate_as
validate_message m = validate_as m.kind m

-- What a session carries over of a message: the chunk of a file_chunk, and of no other.
unfoldable pub delivered : Message → Message
delivered m = if text_eq m.kind type_file_chunk then m else record m { chunk = [] }

-- json.Marshal by the struct's tags: `chunk` is left out.
unfoldable pub marshal_message : Message → JsonObject
marshal_message m =
    (codes "type", text m.kind)
    ∷ (omit_empty (codes "file_id") m.file_id
        ++ (omit_empty (codes "name") m.name
            ++ (omit_zero (codes "size") m.size
                ++ (omit_zero (codes "index") m.index
                    ++ (omit_empty (codes "checksum") m.checksum
                        ++ (omit_false (codes "resume") m.resume
                            ++ omit_zero (codes "offset") m.offset))))))

unfoldable pub set_message_field : Text → Json → Message → Option Message
set_message_field k v m =
    if names_field k (codes "type")
    then Option.map (λ x. record m { kind = x }) (read_text v m.kind)
    else if names_field k (codes "file_id")
    then Option.map (λ x. record m { file_id = x }) (read_text v m.file_id)
    else if names_field k (codes "name")
    then Option.map (λ x. record m { name = x }) (read_text v m.name)
    else if names_field k (codes "size")
    then Option.map (λ x. record m { size = x }) (read_int64 v m.size)
    else if names_field k (codes "index")
    then Option.map (λ x. record m { index = x }) (read_int64 v m.index)
    else if names_field k (codes "checksum")
    then Option.map (λ x. record m { checksum = x }) (read_text v m.checksum)
    else if names_field k (codes "resume")
    then Option.map (λ x. record m { resume = x }) (read_bool v m.resume)
    else if names_field k (codes "offset")
    then Option.map (λ x. record m { offset = x }) (read_int64 v m.offset)
    else some m

-- json.Unmarshal into a zero message.
unfoldable pub unmarshal_message : JsonObject → Option Message
unmarshal_message o = set_fields set_message_field o zero_message

abbrev checked : Message → Result MessageError (Unit {0}) → Result MessageError Message
checked m (ok _) = ok m
checked m (err e) = err e

module _ (J : JsonText) where
  unfoldable pub encode_message : Message → Result MessageError Bytes
  encode_message m = elim (validate_message m) [
    | ok _ ↦ ok (J.print (marshal_message m))
    | err e ↦ err e
  ]

  unfoldable pub decode_message : Bytes → Result MessageError Message
  decode_message payload = elim (J.parse payload) [
    | none ↦ err bad_json
    | some o ↦ elim (unmarshal_message o) [
      | none ↦ err bad_json
      | some m ↦ checked m (validate_message m)
    ]
  ]
