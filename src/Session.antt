-- ===== src/Session.antt =====
-- internal/session/session.go: SecureSession, which seals each message and puts it into frames.
-- The noise library's cipher states are the parameter `CipherSuite`. A connection is the bytes
-- still to be read, the bytes written so far, and what the next writes will do.
pub mod Frames
pub mod Channel
pub mod Errors
pub mod Toy
pub mod Handshake
pub mod Connect
mod Tests
use goxfer.Base.{
  ℕ, ◌+◌, ◌≡◌, List, [], ◌∷◌, ◌++◌, Option, none, some, Bytes, text_eq, length, take, if◌then◌else◌,
  Proc, Outcome, done, fail, pure, ◌>>=◌, ◌>>◌, Result, ok, err,
}
use goxfer.Json.{JsonText}
use goxfer.Protocol.Frame.{FrameError, encode_frame, decode_frame}
use goxfer.Protocol.Message.{Message, MessageError, type_file_chunk, encode_message, decode_message}

-- One direction of a finished Noise handshake. `Paired s r`: the receiver state `r` is at the
-- nonce of the sender state `s`, under the same key.
pub record CipherSuite : Type 1 where
  pub State : Type 0
  pub encrypt : State → Bytes → Option (Bytes × State)
  pub decrypt : State → Bytes → Option (Bytes × State)
  pub Paired : State → State → Type 0
  pub decrypt-encrypt :
      (s r t : State) (plain cipher : Bytes)
      → Paired s r
      → encrypt s plain ≡ some (cipher, t)
      → (u : State) × (decrypt r cipher ≡ some (plain, u)) × Paired t u
  -- The tag of ChaCha20-Poly1305.
  pub length-encrypt :
      (s t : State) (plain cipher : Bytes)
      → encrypt s plain ≡ some (cipher, t)
      → length cipher ≡ length plain + 16

-- `writes`: each coming write goes through whole (`none`, and when the list is used up), or fails
-- after some bytes.
pub record Conn : Type 0 where
  pub incoming : Bytes
  pub sent : Bytes
  pub writes : List (Option ℕ)

pub record Session (State : Type 0) : Type 0 where
  pub conn : Conn
  pub send : State
  pub receive : State

pub data SessionError : Type 0 where
  message_error : MessageError → SessionError
  frame_error : FrameError → SessionError
  encrypt_failed decrypt_failed write_failed : SessionError

-- net.Conn.Write
unfoldable pub write_outcome : Bytes → Conn → List (Option ℕ) → Outcome Conn SessionError (Unit {0})
write_outcome frame c [] = done tt (record c { sent = c.sent ++ frame })
write_outcome frame c (none ∷ ws) = done tt (record c { sent = c.sent ++ frame; writes = ws })
write_outcome frame c (some n ∷ ws) =
    fail write_failed (record c { sent = c.sent ++ take n frame; writes = ws })

abbrev read_outcome : Conn → Outcome Bytes FrameError Bytes → Outcome Conn SessionError Bytes
read_outcome c (done p rest) = done p (record c { incoming = rest })
read_outcome c (fail e rest) = fail (frame_error e) (record c { incoming = rest })

module _ {State : Type 0} where
  abbrev with_conn :
      {A : Type 0}
      → Session State
      → Outcome Conn SessionError A
      → Outcome (Session State) SessionError A
  with_conn s (done a c) = done a (record s { conn = c })
  with_conn s (fail e c) = fail e (record s { conn = c })

  unfoldable pub write : Bytes → Proc (Session State) SessionError (Unit {0})
  unfolding write_outcome
  write frame s = with_conn s (write_outcome frame s.conn s.conn.writes)

  unfoldable pub read_frame : Proc (Session State) SessionError Bytes
  read_frame s = with_conn s (read_outcome s.conn (decode_frame s.conn.incoming))

  abbrev pub of_message {ℓ} :
      {A : Type ℓ} → Result MessageError A → Proc (Session State) SessionError A
  of_message (ok a) s = done a s
  of_message (err e) s = fail (message_error e) s

  abbrev pub of_frame : Result FrameError Bytes → Proc (Session State) SessionError Bytes
  of_frame (ok a) s = done a s
  of_frame (err e) s = fail (frame_error e) s

module _ (J : JsonText) (C : CipherSuite) where
  abbrev pub SessionProc : Type 0 → Type 0
  SessionProc A = Proc (Session C.State) SessionError A

  unfoldable pub encrypt : Bytes → SessionProc Bytes
  encrypt plain s = elim (C.encrypt s.send plain) [
    | none ↦ fail encrypt_failed s
    | some (cipher, t) ↦ done cipher (record s { send = t })
  ]

  unfoldable pub decrypt : Bytes → SessionProc Bytes
  decrypt cipher s = elim (C.decrypt s.receive cipher) [
    | none ↦ fail decrypt_failed s
    | some (plain, t) ↦ done plain (record s { receive = t })
  ]

  -- Both frames of SendMessage go out this way.
  unfoldable pub send_frame : Bytes → SessionProc (Unit {0})
  send_frame plain = do cipher ← encrypt plain; frame ← of_frame (encode_frame cipher); write frame

  unfoldable pub receive_frame : SessionProc Bytes
  receive_frame = do frame ← read_frame; decrypt frame

  unfoldable pub send_message : Message → SessionProc (Unit {0})
  send_message m = do
    payload ← of_message (encode_message J (record m { chunk = [] }))
    send_frame payload
    if text_eq m.kind type_file_chunk then send_frame m.chunk else pure tt

  -- The second frame of a chunk.
  abbrev pub receive_chunk : Message → SessionProc Message
  receive_chunk m = do chunk ← receive_frame; pure (record m { chunk = chunk })

  unfoldable pub receive_message : SessionProc Message
  receive_message = do
    plain ← receive_frame
    m ← of_message (decode_message J plain)
    if text_eq m.kind type_file_chunk then receive_chunk m else pure m
