-- ===== src/Cli/Receiver.antt =====
-- internal/transfer/p2p.go: the command that a sender prints for its receiver, as cmd/main.go reads it.
use goxfer.Base.{
  ℕ, ◌≡◌, refl, sym, ap, ◌∙◌, Bool, true, false, not, ◌&&◌, List, [], ◌∷◌, ◌++◌, none, Text, codes,
  is_empty, ◌==◌, if◌then◌else◌, arith, text_eq,
}
use goxfer.Base.Dict.{lookup, insert}
use goxfer.Cli.{p2p_receive, main, run_receive, receive_command, or_exit, receive_flags}
use goxfer.Cli.Flags.{parse_from, classify, operand, Value, parsed}

-- printReceiverCommand, without the box around the command.
unfoldable pub receiver_command : Text → Bool → Text → Text → Text
receiver_command base resume code addr =
    base
    ++ ((if is_empty code then [] else codes " --code=" ++ code)
        ++ ((if resume then codes " --resume" else [])
            ++ (codes " " ++ (addr ++ codes " <dest-dir>"))))

-- The words that a shell makes of a line without quotes and other special characters.
abbrev start_word : ℕ → List Text → List Text
start_word c [] = (c ∷ []) ∷ []
start_word c (w ∷ ws) = (c ∷ w) ∷ ws

abbrev pub words : Text → List Text
words [] = [] ∷ []
words (c ∷ s) = let rest = words s in if c == b' ' then [] ∷ rest else start_word c rest

abbrev pub no_space : Text → Bool
no_space [] = true
no_space (c ∷ s) = not (c == b' ') && no_space s

words-append : (w s : Text) → no_space w ≡ true → words (w ++ (b' ' ∷ s)) ≡ w ∷ words s
words-append [] s h = refl
words-append (c ∷ w) s h = ground (arith, words-append w s)

abbrev pub is_word : Text → Bool
is_word [] = false
is_word (c ∷ s) = no_space (c ∷ s)

is_word→no_space : (t : Text) → is_word t ≡ true → no_space t ≡ true
is_word→no_space [] h = cc
is_word→no_space (c ∷ t) h = h

abbrev resume_words : Bool → List Text → List Text
resume_words true rest = codes "--resume" ∷ rest
resume_words false rest = rest

abbrev code_words : Text → List Text → List Text
code_words [] rest = rest
code_words (c ∷ code) rest = (codes "--code=" ++ (c ∷ code)) ∷ rest

words_last :
    (addr : Text)
    → is_word addr ≡ true
    → words (addr ++ codes " <dest-dir>") ≡ addr ∷ codes "<dest-dir>" ∷ []
words_last addr h = words-append addr (codes "<dest-dir>") (is_word→no_space addr h)

words_resume :
    (resume : Bool) (addr : Text)
    → is_word addr ≡ true
    → words ((if resume then codes "--resume " else []) ++ (addr ++ codes " <dest-dir>"))
      ≡ resume_words resume (addr ∷ codes "<dest-dir>" ∷ [])
words_resume true addr h =
    words-append (codes "--resume") (addr ++ codes " <dest-dir>") refl
    ∙ ap (λ ws. codes "--resume" ∷ ws) (words_last addr h)
words_resume false addr h = words_last addr h

regrouped :
    (resume : Bool) (s : Text)
    → (if resume then codes " --resume" else []) ++ (codes " " ++ s)
      ≡ codes " " ++ ((if resume then codes "--resume " else []) ++ s)
regrouped true s = refl
regrouped false s = refl

receiver_command-words :
    (resume : Bool) (code addr : Text)
    → no_space code ≡ true
    → is_word addr ≡ true
    → words (receiver_command (codes "goxfer receive") resume code addr)
      ≡ codes "goxfer"
        ∷ codes "receive"
        ∷ code_words code (resume_words resume (addr ∷ codes "<dest-dir>" ∷ []))
unfolding receiver_command
receiver_command-words resume [] addr h k =
    let line =
      ap (λ s. words (codes "goxfer receive" ++ s))
        (regrouped resume (addr ++ codes " <dest-dir>")) in
    line ∙ ap (λ ws. codes "goxfer" ∷ codes "receive" ∷ ws) (words_resume resume addr k)
receiver_command-words resume (c ∷ code) addr h k =
    let tail = regrouped resume (addr ++ codes " <dest-dir>") in
    let rest = (if resume then codes "--resume " else []) ++ (addr ++ codes " <dest-dir>") in
    ap (λ s. words (codes "goxfer receive" ++ ((codes " --code=" ++ (c ∷ code)) ++ s))) tail
    ∙ ap (λ ws. codes "goxfer" ∷ codes "receive" ∷ ws)
        (words-append (codes "--code=" ++ (c ∷ code)) rest h
          ∙ ap (λ ws. (codes "--code=" ++ (c ∷ code)) ∷ ws) (words_resume resume addr k))

parse_operand :
    (addr dest : Text) (d : List (Text × Value))
    → classify addr ≡ operand
    → parse_from receive_flags none (addr ∷ dest ∷ []) d ≡ parsed d (addr ∷ dest ∷ [])
unfolding parse_from
parse_operand addr dest d h = rw (h, parse_from)

receive_reads :
    (resume : Bool) (code addr dest : Text)
    → classify addr ≡ operand
    → main (codes "receive" ∷ code_words code (resume_words resume (addr ∷ dest ∷ [])))
      ≡ p2p_receive addr dest code resume
unfolding main run_receive parse_from text_eq lookup insert
receive_reads false [] addr dest h =
    ap (λ p. or_exit p receive_command) (parse_operand addr dest [] h)
receive_reads true [] addr dest h =
    ap (λ p. or_exit p receive_command) (parse_operand addr dest _ h)
receive_reads false (c ∷ code) addr dest h =
    ap (λ p. or_exit p receive_command) (parse_operand addr dest _ h)
receive_reads true (c ∷ code) addr dest h =
    ap (λ p. or_exit p receive_command) (parse_operand addr dest _ h)

words-append_end :
    (resume : Bool) (code addr last : Text)
    → code_words code (resume_words resume (addr ∷ last ∷ []))
      ≡ code_words code (resume_words resume (addr ∷ [])) ++ last ∷ []
words-append_end true [] addr last = refl
words-append_end false [] addr last = refl
words-append_end true (c ∷ code) addr last = refl
words-append_end false (c ∷ code) addr last = refl

-- The command that the sender prints for its receiver consists of the words of a run of goxfer
-- that, with a destination for its last word, calls P2PReceive with the sender's address, code
-- and resume flag; for a code without spaces and an address that is one word and not read as a
-- flag.
pub receiver_command-main :
    (resume : Bool) (code addr dest : Text)
    → no_space code ≡ true
    → is_word addr ≡ true
    → classify addr ≡ operand
    → (args : List Text) × (words (receiver_command (codes "goxfer receive") resume code addr)
        ≡ codes "goxfer" ∷ (args ++ codes "<dest-dir>" ∷ []))
      × (main (args ++ dest ∷ []) ≡ p2p_receive addr dest code resume)
receiver_command-main resume code addr dest h k op =
    let args = codes "receive" ∷ code_words code (resume_words resume (addr ∷ [])) in
    (
      args,
      receiver_command-words resume code addr h k
          ∙ ap (λ ws. codes "goxfer" ∷ codes "receive" ∷ ws)
              (words-append_end resume code addr (codes "<dest-dir>")),
      ap (λ ws. main (codes "receive" ∷ ws)) (sym (words-append_end resume code addr dest))
          ∙ receive_reads resume code addr dest op,
    )
