-- ===== src/Tunnel/Tests.antt =====
-- internal/tunnel: short runs of the relay and of its clients.
use goxfer.Base.{ℕ, true, [], ◌∷◌, after, ◌≡◌, refl, text_eq, codes}
use goxfer.Base.Family.{set}
use goxfer.Base.Dict.{lookup, insert, erase}
use goxfer.Tunnel.Relay.{
  Relay, registered, waiting, claiming, empty_relay, Reachable, start, next, register, send_code,
  claim,
}
use goxfer.Json.Plain.{plain_text}
use goxfer.Json.Utf8.{is_utf8}
use goxfer.Net.{Net, write_tcp}
use goxfer.Session.{Conn, write_outcome}
use goxfer.Tunnel.Client.{
  RelayHandshake, RelayAck, zero_handshake, zero_ack, handshake_object, ack_object,
  set_handshake_field, set_ack_field, relay_write, relay_read, send_failed, receive_failed,
}
use goxfer.Tunnel.Client.Lines.{Line, relay_write-relay_read}
use goxfer.Tunnel.Relay.Pairing.{Reachable-paired_once}

-- Connection 0 is a sender with a code, which connection 1 claims.
abbrev one_sender : Relay
one_sender = record empty_relay {
  pending = insert (codes "abc") 0 empty_relay.pending;
  phase = set empty_relay.phase 0 (registered (codes "abc"));
}

abbrev one_waiting : Relay
one_waiting = record one_sender { phase = set one_sender.phase 0 (waiting (codes "abc")) }

abbrev one_claimed : Relay
one_claimed = record one_waiting {
  pending = erase (codes "abc") one_waiting.pending;
  phase = set one_waiting.phase 1 (claiming 0);
}

one_claimed-Reachable : Reachable one_claimed
unfolding set lookup insert text_eq
one_claimed-Reachable =
    next one_waiting one_claimed
      (next one_sender one_waiting
        (next empty_relay one_sender start (register 0 (codes "abc") refl))
        (send_code 0 (codes "abc") refl))
      (claim 1 0 (codes "abc") refl refl)

abbrev receiver : ℕ
receiver = 1

Reachable-paired_once_example : receiver ≡ receiver
unfolding set
Reachable-paired_once_example =
    Reachable-paired_once one_claimed receiver receiver 0 one_claimed-Reachable refl refl

-- A connection to the relay, on which nothing was sent yet.
abbrev fresh_conn : Conn
fresh_conn = record { incoming = []; sent = []; writes = [] }

abbrev net : Net
net = record {
  dials = [];
  accepts = [];
  binds = [];
  next_number = 1;
  opened = 0 ∷ [];
  conns = λ _. fresh_conn;
  printed = [];
  cancelled = [];
}

abbrev hail : RelayHandshake
hail = record { role = codes "receiver"; code = codes "abc" }

abbrev reply : RelayAck
reply = record { code = []; accepted = true; error = [] }

abbrev hailed : Net
hailed = after (relay_write plain_text send_failed 0 (handshake_object hail) net)

abbrev replied : Net
replied = after (relay_write plain_text send_failed 0 (ack_object reply) net)

relay_write-relay_read_example :
    Line (relay_read plain_text set_handshake_field zero_handshake receive_failed) hail 0 net hailed
    × Line (relay_read plain_text set_ack_field zero_ack receive_failed) reply 0 net replied
unfolding relay_write write_tcp write_outcome is_utf8 plain_text
relay_write-relay_read_example =
    relay_write-relay_read plain_text hail reply send_failed receive_failed 0 0 net hailed net
      replied refl refl refl refl refl refl
