-- ===== src/Session/Frames.antt =====
-- internal/session/session.go: one sealed frame, from its writer to its reader.
use goxfer.Base.{
  ℕ, ◌≡◌, ◌∙◌, subst, List, [], ◌∷◌, ◌++◌, Option, none, some, Bytes, arith, Proc, done, >>=-done,
  >>=-eq-done, Result, ok, err, Option-cases, inl, inr,
}
use goxfer.Json.{JsonText}
use goxfer.Protocol.Frame.{FrameError, encode_frame}
use goxfer.Protocol.Frame.RoundTrip.{decode_frame-encode_frame}
use goxfer.Protocol.Message.{MessageError}
use goxfer.Session.{
  CipherSuite, Conn, Session, SessionError, write_outcome, write, read_frame, of_message, of_frame,
  encrypt, decrypt, send_frame, receive_frame,
}

-- A reader whose cipher state is `q`, and to whom these bytes come next.
abbrev pub facing : {State : Type 0} → Session State → State → Bytes → Session State
facing r q bytes = record { conn = record r.conn { incoming = bytes }; send = r.send; receive = q }

pub write_outcome-eq-done :
    (frame : Bytes) (c d : Conn) (ws : List (Option ℕ)) {x : Unit {0}}
    → write_outcome frame c ws ≡ done x d
    → d.sent ≡ c.sent ++ frame
unfolding write_outcome
write_outcome-eq-done frame c d [] h = ground arith
write_outcome-eq-done frame c d (none ∷ ws) h = ground arith
write_outcome-eq-done frame c d (some n ∷ ws) h = cc

-- A write that went well added the whole frame.
pub write-eq-done :
    {State : Type 0} (frame : Bytes) (s : Session State) {x : Unit {0}} {t : Session State}
    → write frame s ≡ done x t
    → (t.conn.sent ≡ s.conn.sent ++ frame) × (t.send ≡ s.send)
unfolding write
write-eq-done frame s {t = t} h =
    ground (arith, write_outcome-eq-done frame s.conn t.conn s.conn.writes)

pub of_frame-eq-done :
    {State : Type 0} (r : Result FrameError Bytes) (s : Session State) {f : Bytes}
    {t : Session State}
    → of_frame r s ≡ done f t
    → (r ≡ ok f) × (s ≡ t)
of_frame-eq-done (ok f) s h = (ground arith, ground arith)
of_frame-eq-done (err e) s h = cc

pub of_message-eq-done :
    {State : Type 0} {A : Type 0} (r : Result MessageError A) (s : Session State) {a : A}
    {t : Session State}
    → of_message r s ≡ done a t
    → (r ≡ ok a) × (s ≡ t)
of_message-eq-done (ok f) s h = (ground arith, ground arith)
of_message-eq-done (err e) s h = cc

pub read_frame-facing :
    {State : Type 0} (r : Session State) (q : State) (payload frame rest : Bytes)
    → encode_frame payload ≡ ok frame
    → read_frame (facing r q (frame ++ rest)) ≡ done payload (facing r q rest)
unfolding read_frame
read_frame-facing r q payload frame rest e = rw (decode_frame-encode_frame payload frame rest e)

-- What a sender's step put on the wire lets any reader paired with it read `a` by `m`.
pub record Delivers (C : CipherSuite) {A : Type 0} (m : Proc (Session C.State) SessionError A)
    (a : A) (s t : Session C.State) (q : C.State) : Type 0 where
  pub bytes : Bytes
  pub next : C.State
  pub sent : t.conn.sent ≡ s.conn.sent ++ bytes
  pub paired : C.Paired t.send next
  pub received :
      (r : Session C.State) (rest : Bytes)
      → m (facing r q (bytes ++ rest)) ≡ done a (facing r next rest)

module _ (J : JsonText) (C : CipherSuite) where
  pub encrypt-eq-done :
      (plain : Bytes) (s : Session C.State) {cipher : Bytes} {t : Session C.State}
      → encrypt J C plain s ≡ done cipher t
      → (C.encrypt s.send plain ≡ some (cipher, t.send)) × (t.conn ≡ s.conn)
  unfolding encrypt
  encrypt-eq-done plain s h = elim (Option-cases (C.encrypt s.send plain)) [
    | inl e ↦ absurd (ground arith)
    | inr ((c, u), e) ↦ ground arith
  ]

  pub receive_frame-facing :
      (r : Session C.State) (q u : C.State) (plain cipher frame rest : Bytes)
      → encode_frame cipher ≡ ok frame
      → C.decrypt q cipher ≡ some (plain, u)
      → receive_frame J C (facing r q (frame ++ rest)) ≡ done plain (facing r u rest)
  unfolding receive_frame decrypt
  receive_frame-facing r q u plain cipher frame rest e d =
      >>=-done read_frame (decrypt J C) (facing r q (frame ++ rest))
        (read_frame-facing r q cipher frame rest e)
      ∙ rw (d, decrypt)

  -- The bytes that a frame's sender wrote, if its write went well, give the text back to every
  -- reader whose cipher state is paired with the sender's, and leave the two states paired and
  -- the bytes behind them unread.
  pub send_frame-receive_frame :
      (plain : Bytes) (s t : Session C.State) (q : C.State)
      → C.Paired s.send q
      → send_frame J C plain s ≡ done tt t
      → Delivers C (receive_frame J C) plain s t q
  unfolding send_frame
  send_frame-receive_frame plain s t q paired h =
      let (cipher, s1, e1, h1) = >>=-eq-done (encrypt J C plain) _ s h in
      let (frame, s2, e2, e3) = >>=-eq-done (of_frame (encode_frame cipher)) _ s1 h1 in
      let (encrypted, same) = encrypt-eq-done plain s e1 in
      let (framed, same') = of_frame-eq-done (encode_frame cipher) s1 e2 in
      let (written, kept) = write-eq-done frame s2 e3 in
      let (u, opened, paired') = C.decrypt-encrypt s.send q s1.send plain cipher paired encrypted in
      record {
        bytes = frame;
        next = u;
        sent = ground arith;
        paired = subst (λ k. C.Paired k u) (ground arith) paired';
        received = λ r rest. receive_frame-facing r q u plain cipher frame rest framed opened;
      }
