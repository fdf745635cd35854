-- ===== src/Setup/Quiet.antt =====
-- What P2PSend and the calls below it do without showing a command.
use goxfer.Base.{
  ℕ, ◌≡◌, refl, subst, Bool, false, [], ◌∷◌, List, Option, none, some, Bytes, Text, is_empty,
  Outcome, done, fail, finally, after, Result, ok, err,
}
use goxfer.Base.Keeps.{Keeps, Keeps-bind, Keeps-pure, Keeps-guard}
use goxfer.Base.Triple.{on_failure}
use goxfer.Json.{JsonText}
use goxfer.Net.{
  Net, dialled, accepted, bound, with_conn, dial_tcp, accept_tcp, listen_tcp, write_tcp, close_tcp,
}
use goxfer.Net.Address.{split_host_port}
use goxfer.Session.{Conn, Session, SessionError, write_outcome}
use goxfer.Session.Handshake.{NoiseHandshake, HandshakeError, new_session}
use goxfer.Session.Connect.{
  bind, accept, connect_session, with_session, handshake_on, listen_failed, accept_failed,
}
use goxfer.Tunnel.Client.{
  RelayAck, RelayError, take_line, with_value, fields_of, line_read, relay_write, relay_read,
  read_ack, set_ack_field, zero_ack, connect_as_sender, wait_for_receiver, connect_failed,
  send_failed, receive_failed, wait_failed, refused,
}
use goxfer.Tunnel.Bore.{
  ServerJson, ServerMsg, BoreError, take_zero, received, split_off, decode_server_msg, send,
  recv_server_msg, answered, start,
}
use goxfer.Setup.{SetupError, wrap, listening_on, bind_direct_listener, session_failed}

abbrev pub Shown : List Text → Net → Type 0
Shown ps n = n.printed ≡ ps

-- A step that prints no command.
abbrev pub Quiet : {E A : Type 0} → (Net → Outcome Net E A) → Type 0
Quiet {E} {A} m = (ps : List Text) → Keeps (Shown ps) m

pub on_failure-Quiet :
    {E A : Type 0} (c : ℕ) (m : Net → Outcome Net E A)
    → Quiet m
    → Quiet (on_failure (close_tcp c) m)
unfolding close_tcp
on_failure-Quiet {E} {A} c m q ps = record { kept = λ n p. go (m n) ((q ps).kept n p) }
  where
    go :
        (o : Outcome Net E A)
        → Shown ps (after o)
        → Shown ps (
            after (elim o as (λ _. Outcome Net E A) [
              | done a t ↦ done a t
              | fail e t ↦ fail e (close_tcp c t)
            ]))
    go (done a t) h = h
    go (fail e t) h = h

pub wrap-Quiet :
    {E A : Type 0} (f : E → SetupError) (m : Net → Outcome Net E A) → Quiet m → Quiet (wrap f m)
wrap-Quiet {E} {A} f m q ps = record { kept = λ n p. go (m n) ((q ps).kept n p) }
  where
    go :
        (o : Outcome Net E A)
        → Shown ps (after o)
        → Shown ps (
            after (elim o as (λ _. Outcome Net SetupError A) [
              | done a t ↦ done a t
              | fail e t ↦ fail (f e) t
            ]))
    go (done a t) h = h
    go (fail e t) h = h

module _ {E : Type 0} (e : E) where
  pub dial_tcp-Quiet : Quiet (dial_tcp e)
  unfolding dial_tcp
  dial_tcp-Quiet ps = record { kept = λ n p. go n n.dials p }
    where
      go : (n : Net) (ds : List (Option Conn)) → Shown ps n → Shown ps (after (dialled e n ds))
      go n [] p = p
      go n (none ∷ ds) p = p
      go n (some c ∷ ds) p = p

  pub accept_tcp-Quiet : Quiet (accept_tcp e)
  unfolding accept_tcp
  accept_tcp-Quiet ps = record { kept = λ n p. go n n.accepts p }
    where
      go : (n : Net) (cs : List (Option Conn)) → Shown ps n → Shown ps (after (accepted e n cs))
      go n [] p = p
      go n (none ∷ cs) p = p
      go n (some c ∷ cs) p = p

  pub listen_tcp-Quiet : Quiet (listen_tcp e)
  unfolding listen_tcp
  listen_tcp-Quiet ps = record { kept = λ n p. go n n.binds p }
    where
      go : (n : Net) (ports : List (Option ℕ)) → Shown ps n → Shown ps (after (bound e n ports))
      go n [] p = p
      go n (none ∷ ports) p = p
      go n (some port ∷ ports) p = p

  pub write_tcp-Quiet : (c : ℕ) (bytes : Bytes) → Quiet (write_tcp e c bytes)
  unfolding write_tcp
  write_tcp-Quiet c bytes ps = record {
    kept = λ n p. go n (write_outcome bytes (n.conns c) (n.conns c).writes) p;
  }
    where
      go :
          (n : Net) (o : Outcome Conn SessionError (Unit {0}))
          → Shown ps n
          → Shown ps (after (with_conn e c n o))
      go n (done x conn) p = p
      go n (fail x conn) p = p

module _ {Cipher : Type 0} (H : NoiseHandshake Cipher) where
  pub connect_session-Quiet :
      (key : Option H.State) (initiator : Bool) (c : ℕ) → Quiet (connect_session H key initiator c)
  unfolding connect_session
  connect_session-Quiet key initiator c =
      on_failure-Quiet c (handshake_on H key initiator c)
        (λ ps. record { kept = λ n p. go ps n (new_session H (n.conns c) key initiator) p })
    where
      go :
          (ps : List Text) (n : Net) (r : Result HandshakeError (Session Cipher))
          → Shown ps n
          → Shown ps (after (with_session H c n r))
      go ps n (ok s) p = p
      go ps n (err e) p = p

  pub accept-Quiet : (key : Option H.State) → Quiet (accept H key)
  unfolding accept
  accept-Quiet key ps =
      Keeps-bind (Shown ps) _ _ (accept_tcp-Quiet accept_failed ps)
        (λ c. connect_session-Quiet key false c ps)

module _ (J : JsonText) where
  pub read_ack-Quiet : (e : RelayError) (c : ℕ) → Quiet (read_ack J e c)
  unfolding relay_read
  read_ack-Quiet e c ps = record { kept = λ n p. go n (take_line (n.conns c).incoming) p }
    where
      valued : (n : Net) (v : Option RelayAck) → Shown ps n → Shown ps (after (with_value e n v))
      valued n none p = p
      valued n (some a) p = p

      go :
          (n : Net) (line : Option (Bytes × Bytes))
          → Shown ps n
          → Shown ps (after (line_read J set_ack_field zero_ack e c n line))
      go n none p = p
      go n (some (line, rest)) p = valued _ (fields_of J set_ack_field zero_ack (J.parse line)) p

  pub connect_as_sender-Quiet : Quiet (connect_as_sender J)
  unfolding connect_as_sender relay_write
  connect_as_sender-Quiet ps = Keeps-bind (Shown ps) _ _ (dial_tcp-Quiet connect_failed ps) (λ c.
      Keeps-bind (Shown ps) _ _ (on_failure-Quiet c _ (write_tcp-Quiet send_failed c _) ps) (λ _.
        Keeps-bind (Shown ps) _ _ (on_failure-Quiet c _ (read_ack-Quiet receive_failed c) ps)
          (λ ack.
            Keeps-bind (Shown ps) _ _
              (on_failure-Quiet c _
                (λ qs. Keeps-guard (Shown qs) (is_empty ack.error) (refused ack.error)) ps)
              (λ _. Keeps-pure (Shown ps) _))))

  pub wait_for_receiver-Quiet : (c : ℕ) → Quiet (wait_for_receiver J c)
  unfolding wait_for_receiver
  wait_for_receiver-Quiet c ps =
      Keeps-bind (Shown ps) _ _ (read_ack-Quiet wait_failed c ps)
        (λ ack. Keeps-guard (Shown ps) (is_empty ack.error) (refused ack.error))

module _ (B : ServerJson) where
  pub recv_server_msg-Quiet : (c : ℕ) → Quiet (recv_server_msg B c)
  unfolding recv_server_msg
  recv_server_msg-Quiet c ps = record { kept = λ n p. go n (take_zero (n.conns c).incoming) p }
    where
      decoded :
          (n : Net) (r : Result BoreError ServerMsg)
          → Shown ps n
          → Shown ps (after (received B n r))
      decoded n (ok m) p = p
      decoded n (err e) p = p

      go :
          (n : Net) (s : Option (Bytes × Bytes)) → Shown ps n → Shown ps (after (split_off B c n s))
      go n none p = p
      go n (some (bytes, rest)) p = decoded _ (decode_server_msg B bytes) p

  pub answered-Quiet :
      (challenge error : Option Text) (hello : Option ℕ) → Quiet (answered B challenge error hello)
  answered-Quiet (some c) error hello ps = record { kept = λ n p. p }
  answered-Quiet none (some e) hello ps = record { kept = λ n p. p }
  answered-Quiet none none none ps = record { kept = λ n p. p }
  answered-Quiet none none (some port) ps = record { kept = λ n p. p }

  pub start-Quiet : Quiet (start B)
  unfolding start send
  start-Quiet ps = Keeps-bind (Shown ps) _ _ (dial_tcp-Quiet _ ps) (λ c.
      Keeps-bind (Shown ps) _ _ (on_failure-Quiet c _ (write_tcp-Quiet _ c _) ps) (λ _.
        Keeps-bind (Shown ps) _ _ (on_failure-Quiet c _ (recv_server_msg-Quiet c) ps) (λ m.
          Keeps-bind (Shown ps) _ _
            (on_failure-Quiet c _ (answered-Quiet m.challenge m.error m.hello) ps)
            (λ port. Keeps-pure (Shown ps) _))))

module _ {E A : Type 0} where
  pub finally-Quiet :
      (c : ℕ) (m : Net → Outcome Net E A) → Quiet m → Quiet (finally (close_tcp c) m)
  unfolding close_tcp
  finally-Quiet c m q ps = record { kept = λ n p. go (m n) ((q ps).kept n p) }
    where
      go :
          (o : Outcome Net E A)
          → Shown ps (after o)
          → Shown ps (
              after (elim o as (λ _. Outcome Net E A) [
                | done a t ↦ done a (close_tcp c t)
                | fail e t ↦ fail e (close_tcp c t)
              ]))
      go (done a t) h = h
      go (fail e t) h = h

  pub Quiet-done :
      (m : Net → Outcome Net E A) (n t : Net) (a : A)
      → Quiet m
      → m n ≡ done a t
      → t.printed ≡ n.printed
  Quiet-done m n t a q h = subst (λ o. Shown n.printed (after o)) h ((q n.printed).kept n refl)

pub bind_direct_listener-Quiet : (addr : Text) → Quiet (bind_direct_listener addr)
unfolding bind_direct_listener bind close_tcp
bind_direct_listener-Quiet addr ps =
    Keeps-bind (Shown ps) _ _ (wrap-Quiet session_failed bind (listen_tcp-Quiet listen_failed) ps)
      (λ l. listened l.0 l.1 (split_host_port addr))
  where
    listened : (l port : ℕ) (s : Option (Text × Text)) → Keeps (Shown ps) (listening_on (l, port) s)
    listened l port none = record { kept = λ n p. p }
    listened l port (some (host, asked)) = record { kept = λ n p. p }
