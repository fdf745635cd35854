-- ===== src/Setup/Ledger.antt =====
-- internal/transfer/p2p.go: what P2PSend and P2PReceive leave open.
use goxfer.Base.{ℕ, refl, Bool, true, false, [], ◌∷◌, List, Option, Text, ◌⊎◌, inl, inr}
use goxfer.Base.Triple.{Triple, Holds, Triple-bind, Triple-guard, Triple-finally, Triple-weaken}
use goxfer.Json.{JsonText}
use goxfer.Net.{Net, close_tcp, cancel_loop}
use goxfer.Net.Ledger.{Open, Opens, Settles, print_command-Settles, close_tcp-Open}
use goxfer.Session.Handshake.{NoiseHandshake}
use goxfer.Session.Connect.{
  OpenSession, bind, accept, dial, connect_session, bind-Opens, accept-Opens, dial-Opens,
  connect_session-Triple,
}
use goxfer.Tunnel.Client.{connect_as_sender, wait_for_receiver, connect_as_receiver}
use goxfer.Tunnel.Client.Ledger.{
  connect_as_sender-Opens, connect_as_receiver-Opens, wait_for_receiver-Settles,
}
use goxfer.Tunnel.Bore.{ServerJson, start}
use goxfer.Tunnel.Bore.Ledger.{start-Opens}
use goxfer.Setup.{
  SetupProc, identity_failed, session_failed, tunnel_failed, relay_failed, wait_failed,
  accept_and_send, send_directly, send_through_tunnel, start_tunnel_and_send, send_through_relay,
  p2p_send, connect_to_sender, p2p_receive,
}
use goxfer.Setup.Left.{
  Triple-wrap, closed_after, bind_direct_listener-Opens, OneLeft, Handed, Leaves, LeavesFailed,
  cancel_loop-Handed, close_tcp-Handed,
}

module _ {Cipher : Type 0} (J : JsonText) (B : ServerJson) (H : NoiseHandshake Cipher)
    (identity : Bool) (key : Option H.State) (transfer : OpenSession Cipher → SetupProc (Unit {0}))
    (settles : (s : OpenSession Cipher) → Settles (transfer s)) where
  accept_and_send-Settles :
      (command : Text) → Settles (accept_and_send J B H identity key transfer command)
  accept_and_send-Settles command os = Triple-bind _ _ (print_command-Settles command os) (λ _.
      Triple-bind _ _ (Triple-wrap session_failed (accept H key) (accept-Opens H key os))
        (λ s. closed_after s.0 (transfer s) (settles s) os))

  send_directly-Settles :
      (listen_addr public_addr : Text) (resume : Bool)
      → Settles (send_directly J B H identity key transfer listen_addr public_addr resume)
  send_directly-Settles listen_addr public_addr resume os =
      Triple-bind _ _ (bind_direct_listener-Opens listen_addr os)
        (λ l. closed_after l.0 _ (accept_and_send-Settles _) os)

  start_tunnel_and_send-Triple :
      (resume : Bool) (os : List ℕ)
      → Triple
          (Open os)
          (start_tunnel_and_send J B H identity key transfer resume)
          (λ _. Handed os)
          (λ n. Open os n ⊎ Handed os n)
  start_tunnel_and_send-Triple resume os =
      Triple-bind _ _
        (Triple-weaken _ (Triple-wrap tunnel_failed (start B) (start-Opens B os)) (λ t n p. p)
          (λ n p. inl p))
        (λ t.
          Triple-finally (cancel_loop t.0) _ (accept_and_send-Settles _ (t.0 ∷ os))
            (λ x n p. cancel_loop-Handed t.0 os n p) (λ n p. inr (cancel_loop-Handed t.0 os n p)))

  send_through_tunnel-Triple :
      (resume : Bool) (os : List ℕ)
      → Triple
          (Open os)
          (send_through_tunnel J B H identity key transfer resume)
          (λ _. Handed os)
          (λ n. Open os n ⊎ Handed os n)
  send_through_tunnel-Triple resume os =
      Triple-bind _ _
        (Triple-weaken _ (Triple-wrap session_failed bind (bind-Opens os)) (λ l n p. p)
          (λ n p. inl p))
        (λ l.
          Triple-finally (close_tcp l.0) _ (start_tunnel_and_send-Triple resume (l.0 ∷ os))
            (λ x n p. close_tcp-Handed l.0 os n p) (λ n p. failed l.0 n p))
    where
      failed :
          (l : ℕ) (n : Net)
          → Open (l ∷ os) n ⊎ Handed (l ∷ os) n
          → Open os (close_tcp l n) ⊎ Handed os (close_tcp l n)
      failed l n (inl p) = inl (close_tcp-Open l os n p)
      failed l n (inr p) = inr (close_tcp-Handed l os n p)

  send_through_relay-Triple :
      (relay_addr : Text) (resume : Bool) (os : List ℕ)
      → Triple
          (Open os)
          (send_through_relay J B H identity key transfer relay_addr resume)
          (λ _. Open os)
          (OneLeft os)
  send_through_relay-Triple relay_addr resume os =
      Triple-bind _ _
        (Triple-weaken _
          (Triple-wrap relay_failed (connect_as_sender J) (connect_as_sender-Opens J os))
          (λ r n p. p) (λ n p. inl p))
        (λ r.
          Triple-bind _ _
            (Triple-weaken _ (print_command-Settles _ (r.0 ∷ os)) (λ x n p. p)
              (λ n p. inr (r.0, p)))
            (λ _.
              Triple-bind _ _
                (Triple-weaken _
                  (Triple-wrap wait_failed (wait_for_receiver J r.0)
                    (wait_for_receiver-Settles J r.0 (r.0 ∷ os)))
                  (λ x n p. p) (λ n p. inr (r.0, p)))
                (λ _.
                  Triple-weaken _
                    (Triple-bind _ _
                      (Triple-wrap session_failed (connect_session H key false r.0)
                        (connect_session-Triple H key false r.0 os))
                      (λ s. closed_after s.0 (transfer s) (settles s) os))
                    (λ x n p. p) (λ n p. inl p))))

  connect_to_sender-Opens :
      (code : Text) → Opens (λ s. s.0) (connect_to_sender J B H identity key transfer code)
  connect_to_sender-Opens [] os = Triple-wrap session_failed (dial H key) (dial-Opens H key os)
  connect_to_sender-Opens (c ∷ code) os =
      Triple-bind _ _
        (Triple-wrap relay_failed (connect_as_receiver J (c ∷ code))
          (connect_as_receiver-Opens J (c ∷ code) os))
        (λ r.
          Triple-wrap session_failed (connect_session H key true r)
            (connect_session-Triple H key true r os))

  p2p_receive-Settles : (code : Text) → Settles (p2p_receive J B H identity key transfer code)
  unfolding p2p_receive
  p2p_receive-Settles code os =
      Triple-bind _ _ (Triple-guard identity identity_failed (λ n p. p)) (λ _.
        Triple-bind _ _ (connect_to_sender-Opens code os)
          (λ s. closed_after s.0 (transfer s) (settles s) os))

  p2p_send-Triple :
      (relay_addr listen_addr public_addr : Text) (resume : Bool) (os : List ℕ)
      → Triple
          (Open os)
          (p2p_send J B H identity key transfer relay_addr listen_addr public_addr resume)
          (λ _. Leaves relay_addr listen_addr os)
          (LeavesFailed relay_addr listen_addr os)
  unfolding p2p_send
  p2p_send-Triple relay_addr (l ∷ listen_addr) public_addr resume os =
      Triple-bind _ _ (Triple-guard identity identity_failed (λ n p. p))
        (λ _. send_directly-Settles (l ∷ listen_addr) public_addr resume os)
  p2p_send-Triple [] [] public_addr resume os =
      Triple-bind _ _ (Triple-guard identity identity_failed (λ n p. inl p))
        (λ _. send_through_tunnel-Triple resume os)
  p2p_send-Triple (c ∷ relay_addr) [] public_addr resume os =
      Triple-bind _ _ (Triple-guard identity identity_failed (λ n p. inl p))
        (λ _. send_through_relay-Triple (c ∷ relay_addr) resume os)

module _ {Cipher : Type 0} (J : JsonText) (B : ServerJson) (H : NoiseHandshake Cipher)
    (identity : Bool) (key : Option H.State) where
  -- Whatever calls fail, P2PReceive leaves open exactly what was open before it, and so does
  -- P2PSend where it listens itself, and where it succeeds over a relay; if it fails over a
  -- relay, one connection may stay open. In the mode of the tunnel a success leaves open one
  -- connection more, whose control loop has been told to end, and so does a failure, unless it
  -- leaves open nothing more. For transfers over the session that open and close nothing of their
  -- own; what the tunnel's goroutines open and close by themselves is not counted.
  pub p2p_ledger :
      (send receive : OpenSession Cipher → SetupProc (Unit {0}))
      → ((s : OpenSession Cipher) → Settles (send s))
      → ((s : OpenSession Cipher) → Settles (receive s))
      → (relay_addr listen_addr public_addr code : Text) (resume : Bool) (n : Net)
      → Holds
          (λ _. Leaves relay_addr listen_addr n.opened)
          (LeavesFailed relay_addr listen_addr n.opened)
          (p2p_send J B H identity key send relay_addr listen_addr public_addr resume n)
        × Holds (λ _. Open n.opened) (Open n.opened) (p2p_receive J B H identity key receive code n)
  p2p_ledger send receive hs hr relay_addr listen_addr public_addr code resume n = (
    (p2p_send-Triple J B H identity key send hs relay_addr listen_addr public_addr resume
          n.opened).holds
        n refl,
    (p2p_receive-Settles J B H identity key receive hr code n.opened).holds n refl,
  )
