-- ===== src/Session/Tests.antt =====
-- internal/session: runs of a session over the ciphers of Session.Toy.
use goxfer.Base.{
  ℕ, ◌≤◌, ◌<◌, ◌≡◌, refl, [], ◌∷◌, Bytes, codes, text_eq, pos, length, done, fail, after, ◌⊎◌,
}
use goxfer.Json.Utf8.{is_utf8}
use goxfer.Json.Plain.{plain_text}
use goxfer.Protocol.Frame.{max_frame_size, payload_too_large, encode_frame}
use goxfer.Protocol.Message.{
  Message, MessageError, zero_message, type_file_chunk, type_ready, delivered, validate_message,
  validate_as, marshal_message, encode_message,
}
use goxfer.Protocol.Message.Validation.{IsValid, validate_message-eq-ok_iff}
use goxfer.Session.{
  Session, message_error, frame_error, encrypt, write, write_outcome, send_frame, send_message,
  receive_message,
}
use goxfer.Session.Frames.{Delivers}
use goxfer.Session.Channel.{
  send_message-receive_message, send_all, receive_all, send_all-receive_all,
}
use goxfer.Session.Errors.{send_message_invalid, send_frame_cases}
use goxfer.Session.Handshake.Toy.{toy_handshake, i0, i1, i2, i3, r0, r1, r2, r3}
use goxfer.Session.Handshake.Agreement.{IsXx, Agreed, new_session-new_session}
use goxfer.Session.Toy.{toy_suite, seal}

abbrev session : Session ℕ
session = record { conn = record { incoming = []; sent = []; writes = [] }; send = 4; receive = 0 }

abbrev chunk : Message
chunk = record zero_message {
  kind = type_file_chunk;
  file_id = codes "id";
  index = pos 1;
  chunk = 7 ∷ [];
}

abbrev ready : Message
ready = record zero_message { kind = type_ready }

abbrev after_frame : Session ℕ
after_frame = after (send_frame plain_text toy_suite (1 ∷ 2 ∷ []) session)

abbrev after_chunk : Session ℕ
after_chunk = after (send_message plain_text toy_suite chunk session)

send_message-receive_message_example :
    Delivers toy_suite
      (receive_message plain_text toy_suite)
      (delivered chunk)
      session
      after_chunk
      4
unfolding send_message send_frame encrypt encode_frame write write_outcome encode_message
    validate_message validate_as text_eq marshal_message is_utf8 plain_text
send_message-receive_message_example =
    send_message-receive_message plain_text toy_suite chunk session after_chunk 4
      (record { size = refl; index = refl; offset = refl }) refl refl refl

abbrev after_two : Session ℕ
after_two = after (send_all plain_text toy_suite (chunk ∷ ready ∷ []) session)

send_all-receive_all_example :
    Delivers toy_suite
      (receive_all plain_text toy_suite 2)
      (delivered chunk ∷ delivered ready ∷ [])
      session
      after_two
      4
unfolding send_all send_message send_frame encrypt encode_frame write write_outcome encode_message
    validate_message validate_as text_eq marshal_message is_utf8 plain_text
send_all-receive_all_example =
    send_all-receive_all plain_text toy_suite (chunk ∷ ready ∷ []) session after_two 4
      (
        record { size = refl; index = refl; offset = refl },
        refl,
        (record { size = refl; index = refl; offset = refl }, refl, tt),
      )
      refl refl

zero_message_not_valid : ¬ IsValid zero_message
unfolding validate_message validate_as text_eq
zero_message_not_valid v = cc ((validate_message-eq-ok_iff zero_message).1 v)

send_message_invalid_example :
    (e : MessageError) × (send_message plain_text toy_suite zero_message session
      ≡ fail (message_error e) session)
send_message_invalid_example =
    send_message_invalid plain_text toy_suite zero_message session zero_message_not_valid

send_frame_cases_example :
    ((18 ≤ max_frame_size)
      × ((frame : Bytes) × (length frame ≡ 22)
          × (send_frame plain_text toy_suite (1 ∷ 2 ∷ []) session
              ≡ done tt
                  (record session { send = 5; conn = record session.conn { sent = frame } }))))
    ⊎ ((max_frame_size < 18)
        × (send_frame plain_text toy_suite (1 ∷ 2 ∷ []) session
            ≡ fail (frame_error payload_too_large) (record session { send = 5 })))
send_frame_cases_example =
    send_frame_cases plain_text toy_suite (1 ∷ 2 ∷ []) (seal 4 (1 ∷ 2 ∷ [])) 5 session refl refl

toy_IsXx : IsXx toy_suite toy_handshake i0 r0
toy_IsXx = record {
  i1 = i1;
  i2 = i2;
  i3 = i3;
  r1 = r1;
  r2 = r2;
  r3 = r3;
  m1 = 1 ∷ [];
  m2 = 2 ∷ [];
  m3 = 3 ∷ [];
  p1 = [];
  p2 = [];
  p3 = [];
  c = 5;
  d = 6;
  c' = 5;
  d' = 6;
  write1 = refl;
  read1 = refl;
  write2 = refl;
  read2 = refl;
  write3 = refl;
  read3 = refl;
  forth = refl;
  back = refl;
}

new_session-new_session_example :
    Agreed toy_suite toy_handshake i0 r0 session.conn session.conn (9 ∷ []) []
new_session-new_session_example =
    new_session-new_session toy_suite toy_handshake i0 r0 session.conn session.conn (9 ∷ []) []
      toy_IsXx refl refl
