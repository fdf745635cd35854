-- ===== src/Setup.antt =====
-- internal/transfer/p2p.go: P2PSend and P2PReceive, which make the session over which files go.
-- The sending and receiving of files is in the module Transfer, and a parameter here.
mod Tests
pub mod Left
pub mod Ledger
pub mod Quiet
pub mod Printed
use goxfer.Base.{
  ℕ, Bool, true, false, List, [], ◌∷◌, ◌++◌, Option, none, some, Text, codes, is_empty, pos,
  if◌then◌else◌, Proc, Outcome, done, fail, pure, throw, guard, finally, ◌>>=◌, ◌>>◌,
}
use goxfer.Hex.{decimal}
use goxfer.Json.{JsonText}
use goxfer.Net.{Net, close_tcp, cancel_loop, print_command}
use goxfer.Net.Address.{split_host_port, join_host_port, direct_receiver_addr}
use goxfer.Session.{Session}
use goxfer.Session.Handshake.{NoiseHandshake}
use goxfer.Session.Connect.{ConnectError, OpenSession, bind, accept, dial, close, connect_session}
use goxfer.Tunnel.Client.{RelayError, connect_as_sender, wait_for_receiver, connect_as_receiver}
use goxfer.Tunnel.Bore.{ServerJson, BoreError, start}
use goxfer.Cli.Receiver.{receiver_command}

pub data SetupError : Type 0 where
  identity_failed bad_address stat_failed make_dir_failed transfer_failed : SetupError
  session_failed : ConnectError → SetupError
  tunnel_failed : BoreError → SetupError
  relay_failed wait_failed : RelayError → SetupError

abbrev pub SetupProc : Type 0 → Type 0
SetupProc A = Proc Net SetupError A

-- An error with the words of the caller around it.
abbrev pub wrap : {E A : Type 0} → (E → SetupError) → Proc Net E A → SetupProc A
wrap f m n = elim (m n) [ done a t ↦ done a t | fail e t ↦ fail (f e) t ]

abbrev any_host : Text → Text
any_host host = if is_empty host then codes "0.0.0.0" else host

abbrev pub listening_on : ℕ × ℕ → Option (Text × Text) → SetupProc (ℕ × Text)
listening_on (l, port) none n = fail bad_address (close_tcp l n)
listening_on (l, port) (some (host, asked)) n =
    done (l, join_host_port (any_host host) (decimal (pos port))) n

unfoldable pub bind_direct_listener : Text → SetupProc (ℕ × Text)
bind_direct_listener addr = do l ← wrap session_failed bind; listening_on l (split_host_port addr)

abbrev pub shown_command : Bool → Text → Text → Text
shown_command resume code addr = receiver_command (codes "goxfer receive") resume code addr

-- What runs over a session, which is closed at the end.
abbrev pub over :
    {Cipher : Type 0}
    → (OpenSession Cipher → SetupProc (Unit {0}))
    → OpenSession Cipher
    → SetupProc (Unit {0})
over transfer s = finally (close_tcp s.0) (transfer s)

module _ {Cipher : Type 0} (J : JsonText) (B : ServerJson) (H : NoiseHandshake Cipher) where
  module _ (identity : Bool) (key : Option H.State)
      (transfer : OpenSession Cipher → SetupProc (Unit {0})) where
    abbrev pub accept_and_send : Text → SetupProc (Unit {0})
    accept_and_send command = do
      print_command command
      s ← wrap session_failed (accept H key)
      over transfer s

    abbrev pub send_directly : Text → Text → Bool → SetupProc (Unit {0})
    send_directly listen_addr public_addr resume = do
      l ← bind_direct_listener listen_addr
      finally (close_tcp l.0) (
          accept_and_send (
            shown_command resume []
              (if is_empty public_addr then direct_receiver_addr l.1 else public_addr)))

    -- The tunnel's connection is left to its control loop, whose context is cancelled in the end.
    abbrev pub start_tunnel_and_send : Bool → SetupProc (Unit {0})
    start_tunnel_and_send resume = do
      t ← wrap tunnel_failed (start B)
      finally (cancel_loop t.0) (accept_and_send (shown_command resume [] t.1))

    abbrev pub send_through_tunnel : Bool → SetupProc (Unit {0})
    send_through_tunnel resume = do
      l ← wrap session_failed bind
      finally (close_tcp l.0) (start_tunnel_and_send resume)

    abbrev pub send_through_relay : Text → Bool → SetupProc (Unit {0})
    send_through_relay relay_addr resume = do
      r ← wrap relay_failed (connect_as_sender J)
      print_command (shown_command resume r.1 relay_addr)
      wrap wait_failed (wait_for_receiver J r.0)
      s ← wrap session_failed (connect_session H key false r.0)
      over transfer s

    unfoldable pub p2p_send : Text → Text → Text → Bool → SetupProc (Unit {0})
    p2p_send relay_addr listen_addr public_addr resume = do
      guard identity identity_failed
      if is_empty listen_addr
          then (if is_empty relay_addr
              then send_through_tunnel resume
              else send_through_relay relay_addr resume)
          else send_directly listen_addr public_addr resume

    abbrev pub connect_to_sender : Text → SetupProc (OpenSession Cipher)
    connect_to_sender [] = wrap session_failed (dial H key)
    connect_to_sender (c ∷ code) = do
      r ← wrap relay_failed (connect_as_receiver J (c ∷ code))
      wrap session_failed (connect_session H key true r)

    -- `transfer` makes the destination first.
    unfoldable pub p2p_receive : Text → SetupProc (Unit {0})
    p2p_receive code = do
      guard identity identity_failed
      s ← connect_to_sender code
      over transfer s

-- What P2PSend does over its session: os.Stat tells whether the source is a directory.
unfoldable pub send_source :
    {A : Type 0}
    → Option Bool
    → (A → SetupProc (Unit {0}))
    → (A → SetupProc (Unit {0}))
    → A
    → SetupProc (Unit {0})
send_source none send_directory send_single_file s = throw stat_failed
send_source (some true) send_directory send_single_file s = send_directory s
send_source (some false) send_directory send_single_file s = send_single_file s

-- What P2PReceive does over its session.
unfoldable pub receive_into_dir :
    {A : Type 0} → Bool → (A → SetupProc (Unit {0})) → A → SetupProc (Unit {0})
receive_into_dir made receive_files s = do guard made make_dir_failed; receive_files s
