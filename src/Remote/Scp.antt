-- ===== src/Remote/Scp.antt =====
-- internal/transfer/scp.go: the commands that SCPTransfer runs.
pub mod Options
pub mod HostKey
use goxfer.Base.{
  Bool, true, false, not, List, [], ◌∷◌, ◌++◌, Option, none, some, Text, codes, is_empty,
  if◌then◌else◌, Proc, Outcome, done, fail, pure, ◌>>◌,
}
use goxfer.Paths.{join, base, ext}

-- A program and its arguments.
abbrev pub CommandLine : Type 0
CommandLine = Text × List Text

-- `results`: what the coming runs print on their standard error if they fail; they go well when
-- the list is used up. `ran`: the commands so far, the last one first.
pub record Shell : Type 0 where
  pub results : List (Option Text)
  pub ran : List CommandLine

pub data ScpError : Type 0 where
  make_dir_failed copy_failed : Text → ScpError

abbrev pub run_result :
    (Text → ScpError) → Shell → List (Option Text) → Outcome Shell ScpError (Unit {0})
run_result e s [] = done tt s
run_result e s (none ∷ rs) = done tt (record s { results = rs })
run_result e s (some stderr ∷ rs) = fail (e stderr) (record s { results = rs })

-- exec.Command and Run
unfoldable pub run : (Text → ScpError) → CommandLine → Proc Shell ScpError (Unit {0})
run e command s = run_result e (record s { ran = command ∷ s.ran }) s.results

abbrev pub host_key_options : Bool → List Text
host_key_options true =
    codes "-o"
    ∷ codes "StrictHostKeyChecking=no"
    ∷ codes "-o"
    ∷ codes "UserKnownHostsFile=/dev/null"
    ∷ []
host_key_options false = []

abbrev pub key_options : Text → List Text
key_options key = if is_empty key then [] else codes "-i" ∷ key ∷ []

-- The arguments of both commands, behind the option for the port.
abbrev pub arguments : Text → Text → Bool → Text → List Text → List Text
arguments port_option port insecure key rest =
    port_option ∷ port ∷ (host_key_options insecure ++ (key_options key ++ rest))

abbrev pub user_at : Text → Text → Text
user_at username host = username ++ (codes "@" ++ host)

unfoldable pub is_remote_path_a_file : Text → Bool
is_remote_path_a_file dest = not (is_empty (ext dest))

unfoldable pub mkdir_command : (username host port key dest : Text) → Bool → CommandLine
mkdir_command username host port key dest insecure = (
  codes "ssh",
  arguments (codes "-p") port insecure key
      (user_at username host ∷ (codes "mkdir -p " ++ dest) ∷ []),
)

unfoldable pub create_remote_dir :
    (username host port key dest : Text) → Bool → Proc Shell ScpError (Unit {0})
create_remote_dir username host port key dest insecure =
    run make_dir_failed (mkdir_command username host port key dest insecure)

abbrev pub target : Text → Text → Text
target src dest = if is_remote_path_a_file dest then dest else join dest (base src)

unfoldable pub scp_command : (username host port key src dest : Text) → Bool → CommandLine
scp_command username host port key src dest insecure = (
  codes "scp",
  arguments (codes "-P") port insecure key
      (src ∷ (user_at username host ++ (codes ":" ++ target src dest)) ∷ []),
)

abbrev pub when : Bool → Proc Shell ScpError (Unit {0}) → Proc Shell ScpError (Unit {0})
when true step = step
when false step = pure tt

unfoldable pub scp_transfer :
    (username host port key src dest : Text) (create_dest_dir insecure : Bool)
    → Proc Shell ScpError (Unit {0})
scp_transfer username host port key src dest create_dest_dir insecure = do
  when create_dest_dir (create_remote_dir username host port key dest insecure)
  run copy_failed (scp_command username host port key src dest insecure)
