-- ===== src/Remote/Scp/HostKey.antt =====
-- internal/transfer/scp.go: what ssh and scp read in the commands of SCPTransfer.
use goxfer.Base.{
  ◌≡◌, Bool, true, false, List, [], ◌∷◌, ◌++◌, none, Text, codes, after, Outcome, fail,
}
use goxfer.Remote.Scp.{
  Shell, ScpError, CommandLine, make_dir_failed, user_at, target, mkdir_command, scp_command,
}
use goxfer.Remote.Scp.Options.{Argument, option, operand, Valued, options, o, i, p, P}

-- The settings that turn the check of the host's key off and forget the key.
abbrev pub unchecked : Bool → List Argument
unchecked true =
    option o (codes "StrictHostKeyChecking=no")
    ∷ option o (codes "UserKnownHostsFile=/dev/null")
    ∷ []
unchecked false = []

abbrev pub with_key : Text → List Argument
with_key [] = []
with_key (c ∷ key) = option i (c ∷ key) ∷ []

-- What each program is asked for, and nothing else.
abbrev pub mkdir_asked : (username host port key dest : Text) → Bool → List Argument
mkdir_asked username host port key dest insecure =
    option p port
    ∷ (unchecked insecure
        ++ (with_key key
            ++ (operand (user_at username host) ∷ operand (codes "mkdir -p " ++ dest) ∷ [])))

abbrev pub copy_asked : (username host port key src dest : Text) → Bool → List Argument
copy_asked username host port key src dest insecure =
    option P port
    ∷ (unchecked insecure
        ++ (with_key key
            ++ (operand src
                ∷ operand (user_at username host ++ (codes ":" ++ target src dest))
                ∷ [])))

module _ (V : Valued) where
  -- What a program reads in its arguments.
  abbrev pub read : CommandLine → List Argument
  read (program, args) = options (V.takes program) none args

  module _ (username host port key src dest : Text) (insecure : Bool) where
    -- The commands of the transfer, which their programs read as they are meant.
    abbrev pub AsksMkdir : CommandLine → Type 0
    AsksMkdir c = (c.0 ≡ codes "ssh") × (read c ≡ mkdir_asked username host port key dest insecure)

    abbrev pub AsksCopy : CommandLine → Type 0
    AsksCopy c =
        (c.0 ≡ codes "scp") × (read c ≡ copy_asked username host port key src dest insecure)

    -- What has run, the last command first: a directory is made only where that was asked for, and
    -- nothing is copied if it fails.
    pub data Ran : Bool → Outcome Shell ScpError (Unit {0}) → Type 0 where
      copied :
          (c : CommandLine) (r : Outcome Shell ScpError (Unit {0}))
          → AsksCopy c
          → (after r).ran ≡ c ∷ []
          → Ran false r
      not_made :
          (c : CommandLine) (stderr : Text) (t : Shell)
          → AsksMkdir c
          → t.ran ≡ c ∷ []
          → Ran true (fail (make_dir_failed stderr) t)
      made_and_copied :
          (c d : CommandLine) (r : Outcome Shell ScpError (Unit {0}))
          → AsksMkdir c
          → AsksCopy d
          → (after r).ran ≡ d ∷ c ∷ []
          → Ran true r

    abbrev mkdir : CommandLine
    mkdir = mkdir_command username host port key dest insecure

    abbrev copy : CommandLine
    copy = scp_command username host port key src dest insecure
