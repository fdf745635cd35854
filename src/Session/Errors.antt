-- ===== src/Session/Errors.antt =====
-- internal/session/session.go: what SendMessage leaves behind when it refuses a message.
use goxfer.Base.{
  ◌+◌, ◌≤◌, ◌<◌, ◌≡◌, refl, sym, ap, ◌∙◌, ◌++◌, [], some, Bytes, length, arith, done, fail,
  >>=-done, >>=-fail, Result, ok, err, ◌⊎◌, inl, inr,
}
use goxfer.Json.{JsonText}
use goxfer.Protocol.Frame.{max_frame_size, payload_too_large, encode_frame}
use goxfer.Protocol.Frame.RoundTrip.{encode_frame_cases}
use goxfer.Protocol.Message.{Message, MessageError, validate_message, encode_message}
use goxfer.Protocol.Message.Validation.{IsValid, validate_message-eq-ok_iff}
use goxfer.Protocol.Message.RoundTrip.{without_chunk, validate_message-without_chunk}
use goxfer.Session.{
  CipherSuite, Session, message_error, frame_error, of_message, of_frame, write, encrypt,
  send_frame, send_message,
}

write-nil :
    {State : Type 0} (frame : Bytes) (s : Session State)
    → s.conn.writes ≡ []
    → write frame s ≡ done tt (record s { conn = record s.conn { sent = s.conn.sent ++ frame } })
unfolding write
write-nil frame s e = ground arith

module _ (J : JsonText) (C : CipherSuite) where
  -- A message that is not valid is refused with an error of validation, and the session is as
  -- before: nothing has been encrypted or written.
  pub send_message_invalid :
      (m : Message) (s : Session C.State)
      → ¬ IsValid m
      → (e : MessageError) × (send_message J C m s ≡ fail (message_error e) s)
  unfolding send_message encode_message
  send_message_invalid m s bad = go (validate_message (without_chunk m)) refl
    where
      go :
          (r : Result MessageError (Unit {0}))
          → validate_message (without_chunk m) ≡ r
          → (e : MessageError) × (send_message J C m s ≡ fail (message_error e) s)
      go (ok x) e =
          absurd
            (bad ((validate_message-eq-ok_iff m).0 (sym (validate_message-without_chunk m) ∙ e)))
      go (err x) e = (x, rw (e, encode_message, of_message))

  encrypt-some :
      (plain : Bytes) (s : Session C.State) {cipher : Bytes} {u : C.State}
      → C.encrypt s.send plain ≡ some (cipher, u)
      → encrypt J C plain s ≡ done cipher (record s { send = u })
  unfolding encrypt
  encrypt-some plain s e = rw (e, encrypt)

  -- With a cipher that goes on and a connection that takes every write, a text goes out, in a
  -- frame 20 bytes longer than it, exactly if the text and its tag of 16 bytes fit into a frame;
  -- if not, the error is that of the frame, nothing is written, and the cipher state has moved
  -- on.
  pub send_frame_cases :
      (plain cipher : Bytes) (u : C.State) (s : Session C.State)
      → C.encrypt s.send plain ≡ some (cipher, u)
      → s.conn.writes ≡ []
      → ((length plain + 16 ≤ max_frame_size)
          × ((frame : Bytes) × (length frame ≡ length plain + 20)
              × (send_frame J C plain s
                  ≡ done tt (record s {
                    send = u;
                    conn = record s.conn { sent = s.conn.sent ++ frame };
                  }))))
        ⊎ ((max_frame_size < length plain + 16)
            × (send_frame J C plain s
                ≡ fail (frame_error payload_too_large) (record s { send = u })))
  unfolding send_frame
  send_frame_cases plain cipher u s e w = elim (encode_frame_cases cipher) [
    | inl (fits, (frame, framed, size)) ↦ inl (
      omega (arith, C.length-encrypt s.send u plain cipher e),
      (
        frame,
        omega (arith, C.length-encrypt s.send u plain cipher e),
        >>=-done (encrypt J C plain) _ s (encrypt-some plain s e)
            ∙ >>=-done (of_frame (encode_frame cipher)) write (record s { send = u })
                (ap (λ r. of_frame r (record s { send = u })) framed)
            ∙ write-nil frame (record s { send = u }) w,
      ),
    )
    | inr (big, refused) ↦ inr (
      omega (arith, C.length-encrypt s.send u plain cipher e),
      >>=-done (encrypt J C plain) _ s (encrypt-some plain s e)
          ∙ >>=-fail (of_frame (encode_frame cipher)) write (record s { send = u })
              (ap (λ r. of_frame r (record s { send = u })) refused),
    )
  ]
