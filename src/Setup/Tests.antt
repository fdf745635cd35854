-- ===== src/Setup/Tests.antt =====
-- internal/transfer/p2p.go: a sender that listens directly, and a receiver, over connections that fail.
use goxfer.Base.{refl, text_eq, ℕ, true, false, [], ◌∷◌, none, some, codes, pure, after}
use goxfer.Base.Triple.{Holds}
use goxfer.Json.Plain.{plain_text}
use goxfer.Base.Family.{set}
use goxfer.Hex.{decimal}
use goxfer.Protocol.Frame.{encode_frame, decode_frame, read_full}
use goxfer.Net.{Net, listen_tcp, accept_tcp, close_tcp, print_command}
use goxfer.Net.Address.{split_host_port, join_host_port, direct_receiver_addr, split_last}
use goxfer.Net.Ledger.{Open, Settles}
use goxfer.Session.{Conn, write_outcome}
use goxfer.Session.Handshake.{
  new_session, run_handshake, write_handshake_message, read_handshake_message,
}
use goxfer.Session.Connect.{OpenSession, bind, accept, connect_session}
use goxfer.Session.Handshake.Toy.{toy_handshake, r0}
use goxfer.Tunnel.Bore.{ServerJson}
use goxfer.Setup.{bind_direct_listener, SetupProc, p2p_send, p2p_receive}
use goxfer.Setup.Quiet.{Quiet}
use goxfer.Setup.Printed.{ShowsOne, p2p_send_shows}
use goxfer.Setup.Left.{Leaves, LeavesFailed}
use goxfer.Setup.Ledger.{p2p_ledger}

abbrev silent : ServerJson
silent = record { print = λ o. []; value = λ bytes. none }

abbrev peer : Conn
peer = record { incoming = []; sent = []; writes = [] }

-- One port to listen on, one peer that connects, one that can be dialled.
abbrev net : Net
net = record {
  dials = some peer ∷ [];
  accepts = some peer ∷ [];
  binds = some 9000 ∷ [];
  next_number = 0;
  opened = [];
  conns = λ _. peer;
  printed = [];
  cancelled = [];
}

abbrev nothing_sent : OpenSession ℕ → SetupProc (Unit {0})
nothing_sent s = pure tt

nothing_sent-Settles : (s : OpenSession ℕ) → Settles (nothing_sent s)
nothing_sent-Settles s os = record { holds = λ n p. p }

p2p_ledger_example :
    Holds
      (λ _. Leaves [] (codes ":9000") [])
      (LeavesFailed [] (codes ":9000") [])
      (p2p_send plain_text silent toy_handshake true
        (some r0)
        nothing_sent
        []
        (codes ":9000")
        []
        false
        net)
    × Holds
        (λ _. Open [])
        (Open [])
        (p2p_receive plain_text silent toy_handshake true (some r0) nothing_sent (codes "abc") net)
p2p_ledger_example =
    p2p_ledger plain_text silent toy_handshake true (some r0) nothing_sent nothing_sent
      nothing_sent-Settles nothing_sent-Settles [] (codes ":9000") [] (codes "abc") false net

-- A receiver that takes part in the handshake; the sender has shown where it listens.
abbrev greeted : Net
greeted = record net {
  accepts =
      some
        (record { incoming = 0 ∷ 0 ∷ 0 ∷ 1 ∷ 1 ∷ 0 ∷ 0 ∷ 0 ∷ 1 ∷ 3 ∷ []; sent = []; writes = [] })
      ∷ [];
}

nothing_sent-Quiet : (s : OpenSession ℕ) → Quiet (nothing_sent s)
nothing_sent-Quiet s ps = record { kept = λ n p. p }

abbrev sent_directly : Net
sent_directly = after (
    p2p_send plain_text silent toy_handshake true (some r0) nothing_sent [] (codes ":9000") [] true
      greeted)

p2p_send_shows_example : ShowsOne plain_text silent [] (codes ":9000") [] true greeted sent_directly
unfolding p2p_send bind_direct_listener listen_tcp bind accept connect_session accept_tcp close_tcp
    print_command split_host_port join_host_port direct_receiver_addr new_session run_handshake
    write_handshake_message read_handshake_message write_outcome encode_frame decode_frame set
    split_last decimal text_eq read_full
p2p_send_shows_example =
    p2p_send_shows plain_text silent toy_handshake true (some r0) nothing_sent nothing_sent-Quiet []
      (codes ":9000") [] true greeted sent_directly refl
