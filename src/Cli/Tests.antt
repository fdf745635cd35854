-- ===== src/Cli/Tests.antt =====
-- cmd/main.go: the command that a sender behind a relay prints, and flags at their edges.
use goxfer.Base.{
  ◌≡◌, refl, true, List, [], ◌∷◌, ◌++◌, none, some, Text, codes, text_eq, pos, negsuc,
}
use goxfer.Base.Dict.{lookup, insert}
use goxfer.Cli.{p2p_receive, exit, main, run_send}
use goxfer.Cli.Numbers.{parse_int}
use goxfer.Cli.Flags.{parse_from}
use goxfer.Cli.Receiver.{receiver_command, words, receiver_command-main}

receiver_command-main_example :
    (args : List Text) × (words
        (receiver_command (codes "goxfer receive") true (codes "k3y") (codes "relay:7835"))
      ≡ codes "goxfer" ∷ (args ++ codes "<dest-dir>" ∷ []))
    × (main (args ++ codes "in" ∷ [])
        ≡ p2p_receive (codes "relay:7835") (codes "in") (codes "k3y") true)
receiver_command-main_example =
    receiver_command-main true (codes "k3y") (codes "relay:7835") (codes "in") refl refl refl

hex_flag : parse_int (codes "0x1F") ≡ some (pos 31)
unfolding parse_int
hex_flag = refl

underscored_flag : parse_int (codes "-1_000") ≡ some (negsuc 999)
unfolding parse_int
underscored_flag = refl

bad_underscore : parse_int (codes "1__0") ≡ none
unfolding parse_int
bad_underscore = refl

both_modes :
    main (codes "send" ∷ codes "--relay=r:1" ∷ codes "--listen" ∷ codes ":9" ∷ codes "f" ∷ [])
    ≡ exit 1
unfolding main run_send parse_from lookup insert text_eq
both_modes = refl
