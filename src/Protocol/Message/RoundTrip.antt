-- ===== src/Protocol/Message/RoundTrip.antt =====
-- internal/protocol/message.go: messages survive EncodeMessage and DecodeMessage.
use goxfer.Base.{
  suc, zero, ◌≡◌, ◌↔◌, refl, sym, ◌∙◌, Bool, true, false, [], ◌∷◌, some, Bytes, Text, codes, ℤ, pos,
  negsuc, is_int64, arith, ok, Option-cases, inl, inr,
}
use goxfer.Protocol.Message.Validation.{IsValid, validate_message-eq-ok_iff}
use goxfer.Json.{
  Json, JsonObject, JsonText, text, names_field, omit_empty, omit_zero, omit_false, set_fields,
  set_fields-append, set_fields-none, set_fields-some, is_utf8_object,
}
use goxfer.Protocol.Message.{
  Message, zero_message, validate_message, marshal_message, set_message_field, unmarshal_message,
  encode_message, decode_message,
}

set_fields-file_id :
    (m : Message) (t : Text)
    → set_fields set_message_field (omit_empty (codes "file_id") t) (record m { file_id = [] })
      ≡ some (record m { file_id = t })
unfolding set_fields set_message_field names_field
set_fields-file_id m [] = refl
set_fields-file_id m (c ∷ t) = refl

set_fields-name :
    (m : Message) (t : Text)
    → set_fields set_message_field (omit_empty (codes "name") t) (record m { name = [] })
      ≡ some (record m { name = t })
unfolding set_fields set_message_field names_field
set_fields-name m [] = refl
set_fields-name m (c ∷ t) = refl

set_fields-size :
    (m : Message) (z : ℤ)
    → is_int64 z ≡ true
    → set_fields set_message_field (omit_zero (codes "size") z) (record m { size = pos 0 })
      ≡ some (record m { size = z })
unfolding set_fields set_message_field names_field
set_fields-size m (pos zero) h = refl
set_fields-size m (pos (suc n)) h = ground arith
set_fields-size m (negsuc n) h = ground arith

set_fields-index :
    (m : Message) (z : ℤ)
    → is_int64 z ≡ true
    → set_fields set_message_field (omit_zero (codes "index") z) (record m { index = pos 0 })
      ≡ some (record m { index = z })
unfolding set_fields set_message_field names_field
set_fields-index m (pos zero) h = refl
set_fields-index m (pos (suc n)) h = ground arith
set_fields-index m (negsuc n) h = ground arith

set_fields-checksum :
    (m : Message) (t : Text)
    → set_fields set_message_field (omit_empty (codes "checksum") t) (record m { checksum = [] })
      ≡ some (record m { checksum = t })
unfolding set_fields set_message_field names_field
set_fields-checksum m [] = refl
set_fields-checksum m (c ∷ t) = refl

set_fields-resume :
    (m : Message) (b : Bool)
    → set_fields set_message_field (omit_false (codes "resume") b) (record m { resume = false })
      ≡ some (record m { resume = b })
unfolding set_fields set_message_field names_field
set_fields-resume m false = refl
set_fields-resume m true = refl

set_fields-offset :
    (m : Message) (z : ℤ)
    → is_int64 z ≡ true
    → set_fields set_message_field (omit_zero (codes "offset") z) (record m { offset = pos 0 })
      ≡ some (record m { offset = z })
unfolding set_fields set_message_field names_field
set_fields-offset m (pos zero) h = refl
set_fields-offset m (pos (suc n)) h = ground arith
set_fields-offset m (negsuc n) h = ground arith

-- The three numbers of a message are Go integers.
pub record IsSized (m : Message) : Type 0 where
  pub size : is_int64 m.size ≡ true
  pub index : is_int64 m.index ≡ true
  pub offset : is_int64 m.offset ≡ true

-- A message without its chunk, which is sent in a frame of its own.
abbrev pub without_chunk : Message → Message
without_chunk m = record m { chunk = [] }

-- The fields of zero_message after the first few of `m` have been read.
abbrev upto_id : Message → Message
upto_id m = record zero_message { kind = m.kind; file_id = m.file_id }

abbrev upto_size : Message → Message
upto_size m = record zero_message {
  kind = m.kind;
  file_id = m.file_id;
  name = m.name;
  size = m.size;
}

abbrev upto_checksum : Message → Message
upto_checksum m = record (upto_size m) { index = m.index; checksum = m.checksum }

set_fields-kind :
    (k : Text) (o : JsonObject)
    → set_fields set_message_field ((codes "type", text k) ∷ o) zero_message
      ≡ set_fields set_message_field o (record zero_message { kind = k })
unfolding set_fields set_message_field names_field
set_fields-kind k o = refl

unmarshal_message-marshal_message :
    (m : Message) → IsSized m → unmarshal_message (marshal_message m) ≡ some (without_chunk m)
unfolding unmarshal_message marshal_message
unmarshal_message-marshal_message m sized =
    set_fields-kind m.kind _
    ∙ set_fields-append set_message_field (omit_empty (codes "file_id") m.file_id) _ _
        (set_fields-file_id (upto_id m) m.file_id)
    ∙ set_fields-append set_message_field (omit_empty (codes "name") m.name) _ _
        (set_fields-name (record (upto_size m) { size = pos 0 }) m.name)
    ∙ set_fields-append set_message_field (omit_zero (codes "size") m.size) _ _
        (set_fields-size (upto_size m) m.size sized.size)
    ∙ set_fields-append set_message_field (omit_zero (codes "index") m.index) _ _
        (set_fields-index (record (upto_size m) { index = m.index }) m.index sized.index)
    ∙ set_fields-append set_message_field (omit_empty (codes "checksum") m.checksum) _ _
        (set_fields-checksum (upto_checksum m) m.checksum)
    ∙ set_fields-append set_message_field (omit_false (codes "resume") m.resume) _ _
        (set_fields-resume (record (upto_checksum m) { resume = m.resume }) m.resume)
    ∙ set_fields-offset (record m { chunk = [] }) m.offset sized.offset

-- No key of a JSON object reaches the chunk.
set_message_field-chunk :
    (k : Text) (v : Json) (m : Message) {n : Message}
    → set_message_field k v m ≡ some n
    → n.chunk ≡ m.chunk
unfolding set_message_field
set_message_field-chunk k v m h = ground arith

set_fields-chunk :
    (o : JsonObject) (m : Message) {n : Message}
    → set_fields set_message_field o m ≡ some n
    → n.chunk ≡ m.chunk
unfolding set_fields
set_fields-chunk [] m h = ground arith
set_fields-chunk ((k, v) ∷ o) m h = elim (Option-cases (set_message_field k v m)) [
  | inl e ↦ cc (sym (set_fields-none set_message_field k v o m e) ∙ h)
  | inr (m', e) ↦
      set_fields-chunk o m' (sym (set_fields-some set_message_field k v o m e) ∙ h)
      ∙ set_message_field-chunk k v m e
]

pub validate_message-without_chunk :
    (m : Message) → validate_message (without_chunk m) ≡ validate_message m
unfolding validate_message
validate_message-without_chunk m = refl

module _ (J : JsonText) where
  encode_message-eq-ok :
      (m : Message) {payload : Bytes}
      → encode_message J m ≡ ok payload
      → (validate_message m ≡ ok tt) × (J.print (marshal_message m) ≡ payload)
  unfolding encode_message
  encode_message-eq-ok m h = ground arith

  decode_message-eq-ok :
      (payload : Bytes) {m : Message}
      → decode_message J payload ≡ ok m
      → (o : JsonObject) × (unmarshal_message o ≡ some m) × (validate_message m ≡ ok tt)
  unfolding decode_message
  decode_message-eq-ok payload h = elim (Option-cases (J.parse payload)) [
    | inl e ↦ absurd (ground arith)
    | inr (o, e) ↦ (o, ground arith, ground arith)
  ]

  -- What EncodeMessage made of a message, DecodeMessage reads back, all but the chunk; for
  -- messages whose texts are UTF-8 and whose numbers are 64-bit integers.
  pub decode_message-encode_message :
      (m : Message) (payload : Bytes)
      → IsSized m
      → is_utf8_object (marshal_message m) ≡ true
      → encode_message J m ≡ ok payload
      → decode_message J payload ≡ ok (without_chunk m)
  unfolding decode_message
  decode_message-encode_message m payload sized utf8 h =
      let (v, p) = encode_message-eq-ok m h in
      ground (
        arith,
        J.parse-print (marshal_message m) utf8,
        unmarshal_message-marshal_message m sized,
        validate_message-without_chunk m,
      )

  -- EncodeMessage gives a payload for a message exactly if the message is valid.
  pub encode_message-eq-ok_iff :
      (m : Message) → ((payload : Bytes) × (encode_message J m ≡ ok payload)) ↔ IsValid m
  unfolding encode_message
  encode_message-eq-ok_iff m = (
    λ (p, e). (validate_message-eq-ok_iff m).0 (ground arith),
    λ v. (J.print (marshal_message m), ground (arith, (validate_message-eq-ok_iff m).1 v)),
  )

  -- Whatever DecodeMessage returns without an error is a valid message, and has no chunk.
  pub decode_message-IsValid :
      (payload : Bytes) (m : Message) → decode_message J payload ≡ ok m → IsValid m × (m.chunk ≡ [])
  unfolding unmarshal_message
  decode_message-IsValid payload m h =
      let (o, u, v) = decode_message-eq-ok payload h in
      ((validate_message-eq-ok_iff m).0 v, set_fields-chunk o zero_message u)
