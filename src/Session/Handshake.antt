-- ===== src/Session/Handshake.antt =====
-- internal/session/session.go: newSession and runHandshake, by which a session comes to be.
-- The noise library's handshake states are the parameter `NoiseHandshake`.
pub mod Agreement
pub mod Toy
use goxfer.Base.{
  ℕ, ◌≤◌, ◌≡◌, Bool, true, false, List, [], ◌∷◌, Option, none, some, Bytes, Text, codes, length,
  if◌then◌else◌, Proc, Outcome, done, fail, pure, throw, ◌>>=◌, ◌>>◌, Result, ok, err,
}
use goxfer.Protocol.Frame.{FrameError, encode_frame, decode_frame}
use goxfer.Session.{
  Conn, Session, SessionError, frame_error, write_failed, encrypt_failed, decrypt_failed,
  CipherSuite, write_outcome, read_outcome,
}

-- What WriteMessage and ReadMessage of a handshake state return besides an error: the message or
-- the payload, the two cipher states (the last message of the pattern has both, the others have
-- neither), and the state that follows. Two cipher states are for the initiator's and the
-- responder's direction. A message of Noise has at most 65535 bytes.
pub record NoiseHandshake (Cipher : Type 0) : Type 1 where
  pub State : Type 0
  pub write_message : State → Bytes → Option (Bytes × Option Cipher × Option Cipher × State)
  pub read_message : State → Bytes → Option (Bytes × Option Cipher × Option Cipher × State)
  pub length-write_message :
      (s t : State) (payload message : Bytes) (c d : Option Cipher)
      → write_message s payload ≡ some (message, c, d, t)
      → length message ≤ 65535

abbrev pub prologue : Bytes
prologue = codes "github.com/JonathanInTheClouds/goxfer/v1"

pub data HandshakeError : Type 0 where
  create_failed write_message_failed read_message_failed no_ciphers : HandshakeError
  session_error : SessionError → HandshakeError

module _ {Cipher : Type 0} (H : NoiseHandshake Cipher) where
  -- The connection and the handshake state.
  pub record Handshake : Type 0 where
    pub conn : Conn
    pub noise : H.State

  abbrev Ciphers : Type 0
  Ciphers = Option Cipher × Option Cipher

  abbrev pub HandshakeProc : Type 0 → Type 0
  HandshakeProc A = Proc Handshake HandshakeError A

  abbrev written :
      Handshake
      → Ciphers
      → Outcome Conn SessionError (Unit {0})
      → Outcome Handshake HandshakeError Ciphers
  written h cs (done x c) = done cs (record h { conn = c })
  written h cs (fail e c) = fail (session_error e) (record h { conn = c })

  abbrev framed :
      Handshake → Ciphers → Result FrameError Bytes → Outcome Handshake HandshakeError Ciphers
  framed h cs (ok frame) = written h cs (write_outcome frame h.conn h.conn.writes)
  framed h cs (err e) = fail (session_error (frame_error e)) h

  abbrev sending :
      Handshake
      → Option (Bytes × Option Cipher × Option Cipher × H.State)
      → Outcome Handshake HandshakeError Ciphers
  sending h none = fail write_message_failed h
  sending h (some (message, c, d, next)) =
      framed (record h { noise = next }) (c, d) (encode_frame message)

  unfoldable pub write_handshake_message : Bytes → HandshakeProc Ciphers
  unfolding write_outcome
  write_handshake_message payload h = sending h (H.write_message h.noise payload)

  abbrev understood :
      Handshake
      → Option (Bytes × Option Cipher × Option Cipher × H.State)
      → Outcome Handshake HandshakeError Ciphers
  understood h none = fail read_message_failed h
  understood h (some (payload, c, d, next)) = done (c, d) (record h { noise = next })

  abbrev read :
      Handshake → Outcome Conn SessionError Bytes → Outcome Handshake HandshakeError Ciphers
  read h (done frame c) = understood (record h { conn = c }) (H.read_message h.noise frame)
  read h (fail e c) = fail (session_error e) (record h { conn = c })

  unfoldable pub read_handshake_message : HandshakeProc Ciphers
  read_handshake_message h = read h (read_outcome h.conn (decode_frame h.conn.incoming))

  -- `if writeCipher == nil && readCipher == nil`
  abbrev if_none : Ciphers → HandshakeProc Ciphers → HandshakeProc Ciphers
  if_none (none, none) step = step
  if_none (none, some d) step = pure (none, some d)
  if_none (some c, d) step = pure (some c, d)

  abbrev both : Ciphers → HandshakeProc (Cipher × Cipher)
  both (some c, some d) = pure (c, d)
  both (some c, none) = throw no_ciphers
  both (none, d) = throw no_ciphers

  unfoldable pub run_handshake : Bool → HandshakeProc (Cipher × Cipher)
  run_handshake true = do
    first ← write_handshake_message prologue
    second ← if_none first read_handshake_message
    third ← if_none second (write_handshake_message [])
    both third
  run_handshake false = do
    first ← read_handshake_message
    second ← if_none first (write_handshake_message prologue)
    third ← if_none second read_handshake_message
    both third

  -- The responder sends where the initiator receives. `start` is the handshake state that
  -- noise.NewHandshakeState makes of the identity's key pair, if it does.
  abbrev pub session_of : Bool → Cipher × Cipher → Conn → Session Cipher
  session_of true (c, d) conn = record { conn = conn; send = c; receive = d }
  session_of false (c, d) conn = record { conn = conn; send = d; receive = c }

  abbrev pub established :
      Bool
      → Outcome Handshake HandshakeError (Cipher × Cipher)
      → Result HandshakeError (Session Cipher)
  established initiator (done cs h) = ok (session_of initiator cs h.conn)
  established initiator (fail e h) = err e

  unfoldable pub new_session : Conn → Option H.State → Bool → Result HandshakeError (Session Cipher)
  new_session conn none initiator = err create_failed
  new_session conn (some start) initiator =
      established initiator (run_handshake initiator (record { conn = conn; noise = start }))
