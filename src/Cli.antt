-- ===== src/Cli.antt =====
-- cmd/main.go: what the arguments of the command select. The transfers themselves are in the
-- other modules; a `Command` is the call that main makes, or the code it exits with.
mod Tests
pub mod Numbers
pub mod Flags
pub mod Receiver
use goxfer.Base.{
  ℕ, Bool, true, false, ◌&&◌, ◌||◌, not, List, [], ◌∷◌, Option, none, some, Text, codes, text_eq,
  is_empty, ℤ, pos, if◌then◌else◌,
}
use goxfer.Base.Dict.{Dict, lookup}
use Flags.{
  Kind, text_flag, bool_flag, int_flag, Value, of_text, of_bool, of_int, Parsed, parsed,
  help_wanted, bad_flag, parse_flags,
}

pub data Command : Type 0 where
  -- os.Exit
  exit : ℕ → Command
  -- transfer.P2PSend, transfer.P2PReceive and tunnel.RunRelay
  p2p_send : (src_path relay_addr listen_addr public_addr : Text) (resume : Bool) → Command
  p2p_receive : (addr dest_dir code : Text) (resume : Bool) → Command
  run_relay_on : Text → Command
  -- transfer.SFTPTransfer, transfer.SCPTransfer and transfer.FTPSTransfer
  sftp_transfer :
      (username password host port key src_path dest_dir known_hosts : Text)
      (max_parallel max_retries : ℤ) (insecure : Bool)
      → Command
  scp_transfer :
      (username password host port key src_path dest_dir : Text) (create_dest_dir insecure : Bool)
      → Command
  ftps_transfer :
      (username password host port src_path dest_dir : Text) (max_retries : ℤ) (insecure : Bool)
      → Command

-- What a flag holds after the arguments were read.
abbrev text_value : Text → Option Value → Text
text_value default (some (of_text t)) = t
text_value default _ = default

abbrev bool_value : Option Value → Bool
bool_value (some (of_bool b)) = b
bool_value _ = false

abbrev int_value : ℤ → Option Value → ℤ
int_value default (some (of_int z)) = z
int_value default _ = default

abbrev pub text_of : Dict Value → Text → Text → Text
text_of d name default = text_value default (lookup name d)

abbrev pub bool_of : Dict Value → Text → Bool
bool_of d name = bool_value (lookup name d)

abbrev int_of : Dict Value → Text → ℤ → ℤ
int_of d name default = int_value default (lookup name d)

-- flag.ExitOnError
abbrev pub or_exit : Parsed → (Dict Value → List Text → Command) → Command
or_exit (parsed d rest) run = run d rest
or_exit help_wanted run = exit 0
or_exit bad_flag run = exit 2

abbrev pub send_flags : List (Text × Kind)
send_flags =
    (codes "relay", text_flag)
    ∷ (codes "listen", text_flag)
    ∷ (codes "public", text_flag)
    ∷ (codes "resume", bool_flag)
    ∷ []

abbrev pub send_command : Dict Value → List Text → Command
send_command d (src ∷ []) =
    let relay = text_of d (codes "relay") [] in
    let listen = text_of d (codes "listen") [] in
    let public = text_of d (codes "public") [] in
    if not (is_empty relay) && not (is_empty listen)
    then exit 1
    else if not (is_empty public) && is_empty listen
    then exit 1
    else p2p_send src relay listen public (bool_of d (codes "resume"))
send_command d _ = exit 1

unfoldable pub run_send : List Text → Command
run_send args = or_exit (parse_flags send_flags args) send_command

abbrev pub receive_flags : List (Text × Kind)
receive_flags = (codes "code", text_flag) ∷ (codes "resume", bool_flag) ∷ []

abbrev pub receive_command : Dict Value → List Text → Command
receive_command d (addr ∷ dest ∷ []) =
    p2p_receive addr dest (text_of d (codes "code") []) (bool_of d (codes "resume"))
receive_command d _ = exit 1

unfoldable pub run_receive : List Text → Command
run_receive args = or_exit (parse_flags receive_flags args) receive_command

abbrev pub relay_flags : List (Text × Kind)
relay_flags = (codes "addr", text_flag) ∷ []

unfoldable pub run_relay : List Text → Command
run_relay args =
    or_exit (parse_flags relay_flags args)
      (λ d rest. run_relay_on (text_of d (codes "addr") (codes ":7835")))

abbrev pub main_flags : List (Text × Kind)
main_flags =
    (codes "protocol", text_flag)
    ∷ (codes "host", text_flag)
    ∷ (codes "port", text_flag)
    ∷ (codes "username", text_flag)
    ∷ (codes "password", text_flag)
    ∷ (codes "key", text_flag)
    ∷ (codes "srcPath", text_flag)
    ∷ (codes "destDir", text_flag)
    ∷ (codes "parallel", int_flag)
    ∷ (codes "retries", int_flag)
    ∷ (codes "scp-mkdir", bool_flag)
    ∷ (codes "insecure", bool_flag)
    ∷ (codes "known-hosts", text_flag)
    ∷ []

abbrev default_port : Text → Text → Text
default_port protocol port =
    if is_empty port
    then (if text_eq protocol (codes "ftps") then codes "21" else codes "22")
    else port

unfoldable pub transfer_command : Dict Value → List Text → Command
transfer_command d rest =
    let protocol = text_of d (codes "protocol") (codes "sftp") in
    let host = text_of d (codes "host") [] in
    let port = default_port protocol (text_of d (codes "port") []) in
    let username = text_of d (codes "username") [] in
    let password = text_of d (codes "password") [] in
    let key = text_of d (codes "key") [] in
    let src = text_of d (codes "srcPath") [] in
    let dest = text_of d (codes "destDir") [] in
    let retries = int_of d (codes "retries") (pos 3) in
    let insecure = bool_of d (codes "insecure") in
    if is_empty host || is_empty src || is_empty dest || is_empty username
    then exit 1
    else if text_eq protocol (codes "sftp")
    then sftp_transfer username password host port key src dest
        (text_of d (codes "known-hosts") (codes "~/.ssh/known_hosts"))
        (int_of d (codes "parallel") (pos 5)) retries insecure
    else if text_eq protocol (codes "scp")
    then scp_transfer username password host port key src dest (bool_of d (codes "scp-mkdir"))
        insecure
    else if text_eq protocol (codes "ftps")
    then ftps_transfer username password host port src dest retries insecure
    else exit 1

abbrev run_transfer : List Text → Command
run_transfer args = or_exit (parse_flags main_flags args) transfer_command

-- The arguments behind the name of the program.
unfoldable pub main : List Text → Command
main [] = run_transfer []
main (word ∷ args) =
    if text_eq word (codes "send")
    then run_send args
    else if text_eq word (codes "receive")
    then run_receive args
    else if text_eq word (codes "relay")
    then run_relay args
    else run_transfer (word ∷ args)
