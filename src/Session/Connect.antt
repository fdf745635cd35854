-- ===== src/Session/Connect.antt =====
-- internal/session/session.go: Bind, Accept, Dial, NewSession and Close.
use goxfer.Base.{
  ℕ, Bool, true, false, List, ◌∷◌, Option, Proc, Outcome, done, fail, ◌>>=◌, Result, ok, err,
}
use goxfer.Base.Family.{set}
use goxfer.Base.Triple.{Triple, Holds, Triple-bind, Triple-on_failure, on_failure}
use goxfer.Net.{Net, dial_tcp, accept_tcp, listen_tcp, close_tcp}
use goxfer.Net.Ledger.{
  Open, Opens, dial_tcp-Opens, accept_tcp-Opens, listen_tcp-Opens, close_tcp-Open,
}
use goxfer.Session.{Session}
use goxfer.Session.Handshake.{NoiseHandshake, HandshakeError, new_session}

pub data ConnectError : Type 0 where
  listen_failed accept_failed dial_failed : ConnectError
  handshake_failed : HandshakeError → ConnectError

abbrev pub ConnectProc : Type 0 → Type 0
ConnectProc A = Proc Net ConnectError A

unfoldable pub bind : ConnectProc (ℕ × ℕ)
bind = listen_tcp listen_failed

-- A session, and the number of its connection.
abbrev pub OpenSession : Type 0 → Type 0
OpenSession Cipher = ℕ × Session Cipher

module _ {Cipher : Type 0} (H : NoiseHandshake Cipher) where
  abbrev pub with_session :
      ℕ
      → Net
      → Result HandshakeError (Session Cipher)
      → Outcome Net ConnectError (OpenSession Cipher)
  with_session c n (ok s) = done (c, s) (record n { conns = set n.conns c s.conn })
  with_session c n (err e) = fail (handshake_failed e) n

  abbrev pub handshake_on : Option H.State → Bool → ℕ → ConnectProc (OpenSession Cipher)
  handshake_on start initiator c n = with_session c n (new_session H (n.conns c) start initiator)

  -- `start` is the handshake state that the noise library makes of the identity's key pair.
  unfoldable pub connect_session : Option H.State → Bool → ℕ → ConnectProc (OpenSession Cipher)
  connect_session start initiator c = on_failure (close_tcp c) (handshake_on start initiator c)

  unfoldable pub accept : Option H.State → ConnectProc (OpenSession Cipher)
  accept start = do c ← accept_tcp accept_failed; connect_session start false c

  unfoldable pub dial : Option H.State → ConnectProc (OpenSession Cipher)
  dial start = do c ← dial_tcp dial_failed; connect_session start true c

  unfoldable pub close : OpenSession Cipher → Net → Net
  close s = close_tcp s.0

  pub connect_session-Triple :
      (start : Option H.State) (initiator : Bool) (c : ℕ) (os : List ℕ)
      → Triple (Open (c ∷ os)) (connect_session start initiator c) (λ s. Open (s.0 ∷ os)) (Open os)
  unfolding connect_session
  connect_session-Triple start initiator c os =
      Triple-on_failure (close_tcp c) (handshake_on start initiator c)
        (record { holds = λ n p. go n (new_session H (n.conns c) start initiator) p })
        (λ n p. close_tcp-Open c os n p)
    where
      go :
          (n : Net) (r : Result HandshakeError (Session Cipher))
          → Open (c ∷ os) n
          → Holds (λ s. Open (s.0 ∷ os)) (Open (c ∷ os)) (with_session c n r)
      go n (ok s) p = p
      go n (err e) p = p

  pub accept-Opens : (start : Option H.State) → Opens (λ s. s.0) (accept start)
  unfolding accept
  accept-Opens start os =
      Triple-bind (accept_tcp accept_failed) (connect_session start false)
        (accept_tcp-Opens accept_failed os) (λ c. connect_session-Triple start false c os)

  pub dial-Opens : (start : Option H.State) → Opens (λ s. s.0) (dial start)
  unfolding dial
  dial-Opens start os =
      Triple-bind (dial_tcp dial_failed) (connect_session start true)
        (dial_tcp-Opens dial_failed os) (λ c. connect_session-Triple start true c os)

pub bind-Opens : Opens (λ l. l.0) bind
unfolding bind
bind-Opens os = listen_tcp-Opens listen_failed os
