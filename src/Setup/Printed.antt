-- ===== src/Setup/Printed.antt =====
-- internal/transfer/p2p.go: the command that P2PSend shows, for each way of being reached.
use goxfer.Base.{
  ℕ, ◌≡◌, refl, sym, ap, ◌∙◌, subst, if◌then◌else◌, Bool, true, false, [], ◌∷◌, Option, Text,
  is_empty, Outcome, done, fail, guard, finally, ◌>>◌, >>=-eq-done, guard-eq-done,
}
use goxfer.Base.Keeps.{Keeps-bind}
use goxfer.Json.{JsonText}
use goxfer.Net.{Net, close_tcp, cancel_loop, print_command}
use goxfer.Net.Address.{direct_receiver_addr}
use goxfer.Session.Handshake.{NoiseHandshake}
use goxfer.Session.Connect.{OpenSession, bind, accept, connect_session, listen_failed}
use goxfer.Tunnel.Client.{connect_as_sender, wait_for_receiver}
use goxfer.Tunnel.Bore.{ServerJson, start}
use goxfer.Setup.{
  SetupError, SetupProc, identity_failed, session_failed, tunnel_failed, relay_failed, wait_failed,
  wrap, bind_direct_listener, over, shown_command, accept_and_send, send_directly,
  start_tunnel_and_send, send_through_tunnel, send_through_relay, p2p_send,
}
use goxfer.Setup.Quiet.{
  Shown, Quiet, Quiet-done, wrap-Quiet, finally-Quiet, listen_tcp-Quiet, accept-Quiet,
  connect_session-Quiet, connect_as_sender-Quiet, wait_for_receiver-Quiet, start-Quiet,
  bind_direct_listener-Quiet,
}

-- The code and the address by which a sender in a state can be reached: where it listens itself,
-- the public address that it was given or else one of the bound address; the public address of the
-- tunnel that it starts; or the address of the relay with the code that the relay has answered.
pub data ReachedBy (J : JsonText) (B : ServerJson) (relay_addr listen_addr public_addr : Text)
    (n : Net) : Text → Text → Type 0 where
  directly :
      (l : ℕ) (actual : Text) (m : Net)
      → is_empty listen_addr ≡ false
      → bind_direct_listener listen_addr n ≡ done (l, actual) m
      → ReachedBy J B relay_addr listen_addr public_addr n []
          (if is_empty public_addr then direct_receiver_addr actual else public_addr)
  by_tunnel :
      (l port c : ℕ) (addr : Text) (m t : Net)
      → is_empty listen_addr ≡ true
      → is_empty relay_addr ≡ true
      → bind n ≡ done (l, port) m
      → start B m ≡ done (c, addr) t
      → ReachedBy J B relay_addr listen_addr public_addr n [] addr
  by_relay :
      (c : ℕ) (code : Text) (m : Net)
      → is_empty listen_addr ≡ true
      → is_empty relay_addr ≡ false
      → connect_as_sender J n ≡ done (c, code) m
      → ReachedBy J B relay_addr listen_addr public_addr n code relay_addr

-- One more command is shown than before, and it has the code and the address of the sender.
abbrev pub ShowsOne : JsonText → ServerJson → Text → Text → Text → Bool → Net → Net → Type 0
ShowsOne J B relay_addr listen_addr public_addr resume n t =
    (code addr : Text) × (t.printed ≡ shown_command resume code addr ∷ n.printed)
    × ReachedBy J B relay_addr listen_addr public_addr n code addr

wrap-eq-done :
    {E A : Type 0} (f : E → SetupError) (m : Net → Outcome Net E A) (n : Net) (a : A) (t : Net)
    → wrap f m n ≡ done a t
    → m n ≡ done a t
wrap-eq-done {E} {A} f m n a t h = go (m n) h
  where
    go :
        (r : Outcome Net E A)
        → (elim r as (λ _. Outcome Net SetupError A) [
          | done b u ↦ done b u
          | fail e u ↦ fail (f e) u
        ])
          ≡ done a t
        → r ≡ done a t
    go (done b u) k = cc k
    go (fail e u) k = cc k

finally-eq-done :
    {A : Type 0} (cleanup : Net → Net) (m : SetupProc A) (n t : Net) (a : A)
    → finally cleanup m n ≡ done a t
    → (u : Net) × (m n ≡ done a u) × (cleanup u ≡ t)
finally-eq-done {A} cleanup m n t a h = go (m n) refl h
  where
    go :
        (o : Outcome Net SetupError A)
        → m n ≡ o
        → (elim o as (λ _. Outcome Net SetupError A) [
          | done b u ↦ done b (cleanup u)
          | fail e u ↦ fail e (cleanup u)
        ])
          ≡ done a t
        → (u : Net) × (m n ≡ done a u) × (cleanup u ≡ t)
    go (done b u) e k = (u, e ∙ ap (λ x. done x u) (cc k), cc k)
    go (fail x u) e k = cc k

module _ {Cipher : Type 0} (J : JsonText) (B : ServerJson) (H : NoiseHandshake Cipher)
    (identity : Bool) (key : Option H.State) (transfer : OpenSession Cipher → SetupProc (Unit {0}))
    (quiet : (s : OpenSession Cipher) → Quiet (transfer s)) where
  over-Quiet : (s : OpenSession Cipher) → Quiet (over transfer s)
  over-Quiet s = finally-Quiet s.0 (transfer s) (quiet s)

  -- Showing a command, and then what shows none.
  shows :
      (command : Text) (rest : SetupProc (Unit {0})) (n t : Net)
      → Quiet rest
      → (print_command command >> rest) n ≡ done tt t
      → t.printed ≡ command ∷ n.printed
  unfolding print_command
  shows command rest n t q h = Quiet-done rest (record n { printed = command ∷ n.printed }) t tt q h

  accept_and_send_shows :
      (command : Text) (n t : Net)
      → accept_and_send J B H identity key transfer command n ≡ done tt t
      → t.printed ≡ command ∷ n.printed
  accept_and_send_shows command n t h =
      shows command _ n t
        (λ ps.
          Keeps-bind (Shown ps) _ _
            (wrap-Quiet session_failed (accept H key) (accept-Quiet H key) ps)
            (λ s. over-Quiet s ps))
        h

  ending_shows :
      (cleanup : Net → Net) (command : Text) (n t : Net)
      → ((u : Net) → (cleanup u).printed ≡ u.printed)
      → finally cleanup (accept_and_send J B H identity key transfer command) n ≡ done tt t
      → t.printed ≡ command ∷ n.printed
  ending_shows cleanup command n t same h =
      let (u, e, ended) =
        finally-eq-done cleanup (accept_and_send J B H identity key transfer command) n t tt h in
      sym (ap (λ (v : Net). v.printed) ended) ∙ same u ∙ accept_and_send_shows command n u e

  send_directly_shows :
      (relay_addr listen_addr public_addr : Text) (resume : Bool) (n t : Net)
      → is_empty listen_addr ≡ false
      → send_directly J B H identity key transfer listen_addr public_addr resume n ≡ done tt t
      → ShowsOne J B relay_addr listen_addr public_addr resume n t
  unfolding close_tcp
  send_directly_shows relay_addr listen_addr public_addr resume n t direct h =
      let (l, n1, e1, h1) = >>=-eq-done (bind_direct_listener listen_addr) _ n h in
      let before =
        Quiet-done (bind_direct_listener listen_addr) n n1 l
          (bind_direct_listener-Quiet listen_addr) e1 in
      let addr = if is_empty public_addr then direct_receiver_addr l.1 else public_addr in
      let command = shown_command resume [] addr in
      (
        [],
        addr,
        ending_shows (close_tcp l.0) command n1 t (λ u. refl) h1 ∙ ap (λ ps. command ∷ ps) before,
        directly l.0 l.1 n1 direct e1,
      )

  send_through_tunnel_shows :
      (public_addr : Text) (resume : Bool) (n t : Net)
      → send_through_tunnel J B H identity key transfer resume n ≡ done tt t
      → ShowsOne J B [] [] public_addr resume n t
  unfolding bind close_tcp cancel_loop
  send_through_tunnel_shows public_addr resume n t h =
      let (l, n1, e1, h1) = >>=-eq-done (wrap session_failed bind) _ n h in
      let (u, e, closed) =
        finally-eq-done (close_tcp l.0) (start_tunnel_and_send J B H identity key transfer resume)
          n1 t tt h1 in
      let (s, n2, e2, h2) = >>=-eq-done (wrap tunnel_failed (start B)) _ n1 e in
      let bound =
        Quiet-done (wrap session_failed bind) n n1 l
          (wrap-Quiet session_failed bind (listen_tcp-Quiet listen_failed)) e1 in
      let started =
        Quiet-done (wrap tunnel_failed (start B)) n1 n2 s
          (wrap-Quiet tunnel_failed (start B) (start-Quiet B)) e2 in
      (
        [],
        s.1,
        sym (ap (λ (v : Net). v.printed) closed)
            ∙ ending_shows (cancel_loop s.0) (shown_command resume [] s.1) n2 u (λ v. refl) h2
            ∙ ap (λ ps. shown_command resume [] s.1 ∷ ps) (started ∙ bound),
        by_tunnel l.0 l.1 s.0 s.1 n1 n2 refl refl (wrap-eq-done session_failed bind n l n1 e1)
            (wrap-eq-done tunnel_failed (start B) n1 s n2 e2),
      )

  send_through_relay_shows :
      (c : ℕ) (relay_addr public_addr : Text) (resume : Bool) (n t : Net)
      → send_through_relay J B H identity key transfer (c ∷ relay_addr) resume n ≡ done tt t
      → ShowsOne J B (c ∷ relay_addr) [] public_addr resume n t
  send_through_relay_shows c relay_addr public_addr resume n t h =
      let (r, n1, e1, h1) = >>=-eq-done (wrap relay_failed (connect_as_sender J)) _ n h in
      let before =
        Quiet-done (wrap relay_failed (connect_as_sender J)) n n1 r
          (wrap-Quiet relay_failed (connect_as_sender J) (connect_as_sender-Quiet J)) e1 in
      (
        r.1,
        c ∷ relay_addr,
        shows (shown_command resume r.1 (c ∷ relay_addr)) _ n1 t
              (λ ps.
                Keeps-bind (Shown ps) _ _
                  (wrap-Quiet wait_failed (wait_for_receiver J r.0) (wait_for_receiver-Quiet J r.0)
                    ps)
                  (λ _.
                    Keeps-bind (Shown ps) _ _
                      (wrap-Quiet session_failed (connect_session H key false r.0)
                        (connect_session-Quiet H key false r.0) ps)
                      (λ s. over-Quiet s ps)))
              h1
            ∙ ap (λ ps. shown_command resume r.1 (c ∷ relay_addr) ∷ ps) before,
        by_relay r.0 r.1 n1 refl refl (wrap-eq-done relay_failed (connect_as_sender J) n r n1 e1),
      )

  -- When P2PSend succeeds, it has shown exactly one command, with its resume flag and with the
  -- code and the address by which it is reached: where it listens itself, no code and the public
  -- address that it was given, or else the one made of the address it has bound; through the
  -- tunnel, no code and the address that Start returned; over a relay, the relay's address and
  -- the code that ConnectAsSender returned. For transfers over the session that show no command.
  pub p2p_send_shows :
      (relay_addr listen_addr public_addr : Text) (resume : Bool) (n t : Net)
      → p2p_send J B H identity key transfer relay_addr listen_addr public_addr resume n ≡ done tt t
      → ShowsOne J B relay_addr listen_addr public_addr resume n t
  unfolding p2p_send
  p2p_send_shows relay_addr listen_addr public_addr resume n t h =
      let (x, n1, e1, h1) = >>=-eq-done (guard identity identity_failed) _ n h in
      let same = (guard-eq-done identity identity_failed n e1).1 in
      subst (λ v. ShowsOne J B relay_addr listen_addr public_addr resume v t) (sym same)
        (go relay_addr listen_addr n1 h1)
    where
      go :
          (relay_addr listen_addr : Text) (v : Net)
          → (if is_empty listen_addr
                then (if is_empty relay_addr
                    then send_through_tunnel J B H identity key transfer resume
                    else send_through_relay J B H identity key transfer relay_addr resume)
                else send_directly J B H identity key transfer listen_addr public_addr resume)
              v
            ≡ done tt t
          → ShowsOne J B relay_addr listen_addr public_addr resume v t
      go relay_addr (l ∷ listen_addr) v h =
          send_directly_shows relay_addr (l ∷ listen_addr) public_addr resume v t refl h
      go [] [] v h = send_through_tunnel_shows public_addr resume v t h
      go (c ∷ relay_addr) [] v h = send_through_relay_shows c relay_addr public_addr resume v t h
