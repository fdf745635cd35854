-- ===== src/Session/Channel.antt =====
-- internal/session/session.go: a session is a first-in first-out channel of messages.
use goxfer.Base.{
  ℕ, zero, suc, ◌≡◌, refl, sym, ap, ◌∙◌, subst, true, false, List, [], ◌∷◌, ◌++◌, append-nil,
  append_assoc, map, Bytes, text_eq, length, if◌then◌else◌, arith, Proc, done, pure, ◌>>=◌, ◌>>◌,
  >>=-done, >>=-eq-done, ok, Bool-cases, inl, inr,
}
use goxfer.Json.{JsonText, is_utf8_object}
use goxfer.Protocol.Message.{
  delivered, Message, type_file_chunk, encode_message, decode_message, marshal_message,
}
use goxfer.Protocol.Message.RoundTrip.{IsSized, without_chunk, decode_message-encode_message}
use goxfer.Session.Frames.{facing, Delivers, send_frame-receive_frame, of_message-eq-done}
use goxfer.Session.{
  CipherSuite, Session, SessionError, of_message, send_frame, receive_frame, send_message,
  receive_message, receive_chunk,
}

module _ (J : JsonText) (C : CipherSuite) where
  receive_message-facing :
      (r : Session C.State) (q u : C.State) (bytes rest payload : Bytes) (m : Message)
      → receive_frame J C (facing r q (bytes ++ rest)) ≡ done payload (facing r u rest)
      → decode_message J payload ≡ ok m
      → receive_message J C (facing r q (bytes ++ rest))
        ≡ (if text_eq m.kind type_file_chunk then receive_chunk J C m else pure m) (facing r u rest)
  unfolding receive_message
  receive_message-facing r q u bytes rest payload m e d =
      >>=-done (receive_frame J C) _ (facing r q (bytes ++ rest)) e
      ∙ >>=-done (of_message (decode_message J payload)) _ (facing r u rest)
          (ap (λ x. of_message x (facing r u rest)) d)

  receive_chunk-facing :
      (r : Session C.State) (q u : C.State) (bytes rest chunk : Bytes) (m : Message)
      → receive_frame J C (facing r q (bytes ++ rest)) ≡ done chunk (facing r u rest)
      → receive_chunk J C m (facing r q (bytes ++ rest))
        ≡ done (record m { chunk = chunk }) (facing r u rest)
  receive_chunk-facing r q u bytes rest chunk m e =
      >>=-done (receive_frame J C) _ (facing r q (bytes ++ rest)) e

  Delivers-plain :
      (m : Message) (payload : Bytes) (s t : Session C.State) (q : C.State)
      → text_eq m.kind type_file_chunk ≡ false
      → decode_message J payload ≡ ok (without_chunk m)
      → Delivers C (receive_frame J C) payload s t q
      → Delivers C (receive_message J C) (without_chunk m) s t q
  Delivers-plain m payload s t q plain decoded d = record {
    bytes = d.bytes;
    next = d.next;
    sent = d.sent;
    paired = d.paired;
    received = λ r rest.
        receive_message-facing r q d.next d.bytes rest payload (without_chunk m) (d.received r rest)
          decoded
        ∙ ap
            (λ b.
              (if b then receive_chunk J C (without_chunk m) else pure (without_chunk m))
                (facing r d.next rest))
            plain;
  }

  Delivers-chunk :
      (m : Message) (payload : Bytes) (s t u : Session C.State) (q : C.State)
      → text_eq m.kind type_file_chunk ≡ true
      → decode_message J payload ≡ ok (without_chunk m)
      → (first : Delivers C (receive_frame J C) payload s t q)
      → Delivers C (receive_frame J C) m.chunk t u first.next
      → Delivers C (receive_message J C) m s u q
  Delivers-chunk m payload s t u q chunk decoded first second = record {
    bytes = first.bytes ++ second.bytes;
    next = second.next;
    sent =
        second.sent
        ∙ ap (λ b. b ++ second.bytes) first.sent
        ∙ append_assoc s.conn.sent first.bytes second.bytes;
    paired = second.paired;
    received = λ r rest.
        ap (λ b. receive_message J C (facing r q b)) (append_assoc first.bytes second.bytes rest)
        ∙ receive_message-facing r q first.next first.bytes (second.bytes ++ rest) payload
            (without_chunk m) (first.received r (second.bytes ++ rest)) decoded
        ∙ ap
            (λ b.
              (if b then receive_chunk J C (without_chunk m) else pure (without_chunk m))
                (facing r first.next (second.bytes ++ rest)))
            chunk
        ∙ receive_chunk-facing r first.next second.next second.bytes rest m.chunk (without_chunk m)
            (second.received r rest);
  }

  -- The frames after the first one.
  Delivers-rest :
      (m : Message) (payload : Bytes) (s t u : Session C.State) (q : C.State)
      → decode_message J payload ≡ ok (without_chunk m)
      → Delivers C (receive_frame J C) payload s t q
      → (if text_eq m.kind type_file_chunk then send_frame J C m.chunk else pure tt) t ≡ done tt u
      → Delivers C (receive_message J C) (delivered m) s u q
  unfolding delivered
  Delivers-rest m payload s t u q decoded first h =
      elim (Bool-cases (text_eq m.kind type_file_chunk)) [
        | inl chunk ↦ rw chunk (
            Delivers-chunk m payload s t u q chunk decoded first
              (send_frame-receive_frame J C m.chunk t u first.next first.paired (rw chunk at h)))
        | inr plain ↦ rw plain (
            subst (λ v. Delivers C (receive_message J C) (without_chunk m) s v q) (ground arith)
              (Delivers-plain m payload s t q plain decoded first))
      ]

  -- A message that was sent without an error is received as it was (but for the chunk of a
  -- message that is no file_chunk) by every reader whose cipher state is paired with the
  -- sender's, and the two states are paired again; for messages whose texts are UTF-8 and whose
  -- numbers are 64-bit integers.
  pub send_message-receive_message :
      (m : Message) (s t : Session C.State) (q : C.State)
      → IsSized m
      → is_utf8_object (marshal_message m) ≡ true
      → C.Paired s.send q
      → send_message J C m s ≡ done tt t
      → Delivers C (receive_message J C) (delivered m) s t q
  unfolding send_message delivered marshal_message
  send_message-receive_message m s t q sized utf8 paired h =
      let (payload, s0, e0, h0) =
        >>=-eq-done (of_message (encode_message J (without_chunk m))) _ s h in
      let (encoded, same) = of_message-eq-done (encode_message J (without_chunk m)) s e0 in
      let (x, s1, e1, h1) = >>=-eq-done (send_frame J C payload) _ s0 h0 in
      let first : Delivers C (receive_frame J C) payload s s1 q =
        send_frame-receive_frame J C payload s s1 q paired
          (subst (λ v. send_frame J C payload v ≡ done tt s1) (sym same) e1) in
      let decoded =
        decode_message-encode_message J (without_chunk m) payload
          (record { size = sized.size; index = sized.index; offset = sized.offset }) utf8 encoded in
      Delivers-rest m payload s s1 t q decoded first h1

  -- A run of messages, sent and received one after the other.
  unfoldable pub send_all : List Message → Proc (Session C.State) SessionError (Unit {0})
  send_all [] = pure tt
  send_all (m ∷ ms) = do send_message J C m; send_all ms

  unfoldable pub receive_all : ℕ → Proc (Session C.State) SessionError (List Message)
  receive_all zero = pure []
  receive_all (suc n) = do m ← receive_message J C; ms ← receive_all n; pure (m ∷ ms)

  abbrev pub AreSendable : List Message → Type 0
  AreSendable [] = Unit
  AreSendable (m ∷ ms) = IsSized m × (is_utf8_object (marshal_message m) ≡ true) × AreSendable ms

  Delivers-cons :
      (m : Message) (ms : List Message) (s t u : Session C.State) (q : C.State)
      → (first : Delivers C (receive_message J C) (delivered m) s t q)
      → Delivers C (receive_all (length ms)) (map delivered ms) t u first.next
      → Delivers C (receive_all (suc (length ms))) (map delivered (m ∷ ms)) s u q
  unfolding receive_all
  Delivers-cons m ms s t u q first more = record {
    bytes = first.bytes ++ more.bytes;
    next = more.next;
    sent =
        more.sent
        ∙ ap (λ b. b ++ more.bytes) first.sent
        ∙ append_assoc s.conn.sent first.bytes more.bytes;
    paired = more.paired;
    received = λ r rest.
        ap (λ b. receive_all (suc (length ms)) (facing r q b))
          (append_assoc first.bytes more.bytes rest)
        ∙ >>=-done (receive_message J C) _ (facing r q (first.bytes ++ (more.bytes ++ rest)))
            (first.received r (more.bytes ++ rest))
        ∙ >>=-done (receive_all (length ms)) _ (facing r first.next (more.bytes ++ rest))
            (more.received r rest);
  }

  -- Messages that were all sent without an error arrive in their order, each once and as it was
  -- (but for the chunk of a message that is no file_chunk), at every reader whose cipher state is
  -- paired with the sender's; for messages whose texts are UTF-8 and whose numbers are 64-bit
  -- integers. The two states are paired again.
  pub send_all-receive_all :
      (ms : List Message) (s t : Session C.State) (q : C.State)
      → AreSendable ms
      → C.Paired s.send q
      → send_all ms s ≡ done tt t
      → Delivers C (receive_all (length ms)) (map delivered ms) s t q
  unfolding send_all receive_all
  send_all-receive_all [] s t q _ paired h =
      let same : s ≡ t = ground arith in
      record {
        bytes = [];
        next = q;
        sent = ap (λ (v : Session C.State). v.conn.sent) (sym same) ∙ sym (append-nil s.conn.sent);
        paired = subst (λ (v : Session C.State). C.Paired v.send q) same paired;
        received = λ r rest. refl;
      }
  send_all-receive_all (m ∷ ms) s t q (sized, utf8, more) paired h =
      let (x, u, e, h') = >>=-eq-done (send_message J C m) _ s h in
      let first : Delivers C (receive_message J C) (delivered m) s u q =
        send_message-receive_message m s u q sized utf8 paired e in
      Delivers-cons m ms s u t q first (send_all-receive_all ms u t first.next more first.paired h')
