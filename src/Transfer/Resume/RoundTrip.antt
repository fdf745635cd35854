-- ===== src/Transfer/Resume/RoundTrip.antt =====
-- internal/transfer/p2p.go: the state file is read back as it was written.
use mathlib.Core.Option
use goxfer.Base.{
  codes, [], ◌∷◌, if◌then◌else◌, ◌≡◌, refl, ap, ◌∙◌, true, none, some, text_eq, is_int64,
}
use goxfer.Json.{
  JsonText, JsonObject, text, num, set_fields-some, names_field, set_fields, is_utf8_object,
}
use goxfer.Transfer.Resume.{
  ResumeState, zero_state, marshal_state, set_state_field, decode_state, encode_state,
}

set_fields-marshal_state :
    (s : ResumeState)
    → is_int64 s.size ≡ true
    → is_int64 s.next_index ≡ true
    → set_fields set_state_field (marshal_state s) zero_state ≡ some s
unfolding set_fields set_state_field marshal_state names_field text_eq
set_fields-marshal_state s size index =
    let after_index : JsonObject = (codes "temp_path", text s.temp_path) ∷ [] in
    let after_size : JsonObject = (codes "next_index", num s.next_index) ∷ after_index in
    let after_name : JsonObject = (codes "size", num s.size) ∷ after_size in
    let after_id : JsonObject = (codes "name", text s.name) ∷ after_name in
    let named : ResumeState = record zero_state { file_id = s.file_id; name = s.name } in
    let sized : ResumeState = record named { size = s.size } in
    set_fields-some set_state_field (codes "file_id") (text s.file_id) after_id zero_state refl
    ∙ set_fields-some set_state_field (codes "name") (text s.name) after_name
        (record zero_state { file_id = s.file_id }) refl
    ∙ set_fields-some set_state_field (codes "size") (num s.size) after_size named (
        ap (λ b. Option.map (λ x. record named { size = x }) (if b then some s.size else none))
          size)
    ∙ set_fields-some set_state_field (codes "next_index") (num s.next_index) after_index sized (
        ap
          (λ b.
            Option.map (λ x. record sized { next_index = x })
              (if b then some s.next_index else none))
          index)
    ∙ set_fields-some set_state_field (codes "temp_path") (text s.temp_path) []
        (record sized { next_index = s.next_index }) refl

module _ (J : JsonText) where
  -- A resume state that was written is read back as it was; for states whose texts are UTF-8 and
  -- whose two numbers are 64-bit integers.
  pub decode_state-encode_state :
      (s : ResumeState)
      → is_int64 s.size ≡ true
      → is_int64 s.next_index ≡ true
      → is_utf8_object (marshal_state s) ≡ true
      → decode_state J (encode_state J s) ≡ some s
  unfolding decode_state encode_state
  decode_state-encode_state s size index utf8 =
      rw (J.parse-print (marshal_state s) utf8, decode_state)
        (set_fields-marshal_state s size index)
