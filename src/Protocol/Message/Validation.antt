-- ===== src/Protocol/Message/Validation.antt =====
-- internal/protocol/message.go: what ValidateMessage accepts.
use goxfer.Base.{
  ◌≡◌, ◌↔◌, refl, ap, ◌∙◌, false, [], ◌∷◌, Text, text_eq, text_eq_iff, is_empty, is_negative, arith,
  ok, Bool-cases, inl, inr, ◌≢◌,
}
use goxfer.Protocol.Message.{
  Message, type_file_start, type_file_chunk, type_file_complete, type_file_checksum,
  type_file_resume, type_ready, below_minus_one, validate_message, validate_as,
}

-- The messages that the protocol allows, by kind.
pub data IsValid (m : Message) : Type 0 where
  start :
      m.kind ≡ type_file_start
      → m.file_id ≢ []
      → m.name ≢ []
      → below_minus_one m.size ≡ false
      → IsValid m
  chunk : m.kind ≡ type_file_chunk → m.file_id ≢ [] → is_negative m.index ≡ false → IsValid m
  complete : m.kind ≡ type_file_complete → m.file_id ≢ [] → IsValid m
  checksum : m.kind ≡ type_file_checksum → m.file_id ≢ [] → m.checksum ≢ [] → IsValid m
  resume : m.kind ≡ type_file_resume → m.file_id ≢ [] → is_negative m.offset ≡ false → IsValid m
  ready : m.kind ≡ type_ready → IsValid m

is_empty_ne : (t : Text) → t ≢ [] → is_empty t ≡ false
is_empty_ne [] h = absurd (h refl)
is_empty_ne (c ∷ t) h = refl

ne_of_is_empty : (t : Text) → is_empty t ≡ false → t ≢ []
ne_of_is_empty [] h = λ _. cc
ne_of_is_empty (c ∷ t) h = λ e. cc

IsValid-validate_message : (m : Message) → IsValid m → validate_message m ≡ ok tt
unfolding validate_message text_eq
IsValid-validate_message m (start k i n s) =
    ap (λ k. validate_as k m) k ∙ ground (arith, is_empty_ne m.file_id i, is_empty_ne m.name n)
IsValid-validate_message m (chunk k i n) =
    ap (λ k. validate_as k m) k ∙ ground (arith, is_empty_ne m.file_id i)
IsValid-validate_message m (complete k i) =
    ap (λ k. validate_as k m) k ∙ ground (arith, is_empty_ne m.file_id i)
IsValid-validate_message m (checksum k i c) =
    ap (λ k. validate_as k m) k ∙ ground (arith, is_empty_ne m.file_id i, is_empty_ne m.checksum c)
IsValid-validate_message m (resume k i n) =
    ap (λ k. validate_as k m) k ∙ ground (arith, is_empty_ne m.file_id i)
IsValid-validate_message m (ready k) = ap (λ k. validate_as k m) k

-- Each case of the switch hands on what its test found.
validate_as-IsValid : (k : Text) (m : Message) → m.kind ≡ k → validate_as k m ≡ ok tt → IsValid m
unfolding validate_as
validate_as-IsValid k m e h = elim (Bool-cases (text_eq k type_file_start)) [
  | inl a ↦
      start (e ∙ (text_eq_iff _ _).0 a) (ne_of_is_empty _ (ground arith))
        (ne_of_is_empty _ (ground arith)) (ground arith)
  | inr a ↦ elim (Bool-cases (text_eq k type_file_chunk)) [
    | inl b ↦ chunk (e ∙ (text_eq_iff _ _).0 b) (ne_of_is_empty _ (ground arith)) (ground arith)
    | inr b ↦ elim (Bool-cases (text_eq k type_file_complete)) [
      | inl c ↦ complete (e ∙ (text_eq_iff _ _).0 c) (ne_of_is_empty _ (ground arith))
      | inr c ↦ elim (Bool-cases (text_eq k type_file_checksum)) [
        | inl d ↦
            checksum (e ∙ (text_eq_iff _ _).0 d) (ne_of_is_empty _ (ground arith))
              (ne_of_is_empty _ (ground arith))
        | inr d ↦ elim (Bool-cases (text_eq k type_file_resume)) [
          | inl f ↦
              resume (e ∙ (text_eq_iff _ _).0 f) (ne_of_is_empty _ (ground arith)) (ground arith)
          | inr f ↦ ready (e ∙ (text_eq_iff _ _).0 (ground arith))
        ]
      ]
    ]
  ]
]

-- ValidateMessage accepts the messages that the protocol allows, by the cases of IsValid, and no
-- others.
pub validate_message-eq-ok_iff : (m : Message) → (validate_message m ≡ ok tt) ↔ IsValid m
unfolding validate_message
validate_message-eq-ok_iff m = (validate_as-IsValid m.kind m refl, IsValid-validate_message m)
