-- ===== src/Remote/Scp/Options.antt =====
-- internal/transfer/scp.go: how ssh and scp tell the options of their arguments from the rest, as
-- getopt does. Options may stand in front of the other words and behind them.
use goxfer.Base.{
  ℕ, ◌==◌, ◌≡◌, refl, arith, Bool, true, false, List, [], ◌∷◌, Option, none, some, Text, codes,
  if◌then◌else◌,
}

abbrev pub o : ℕ
o = 111

abbrev pub i : ℕ
i = 105

abbrev pub p : ℕ
p = 112

abbrev pub P : ℕ
P = 80

abbrev pub dash : ℕ
dash = 45

-- Which options of ssh and of scp are followed by a value: those that the program uses are.
pub record Valued : Type 0 where
  pub takes : Text → ℕ → Bool
  pub ssh_p : takes (codes "ssh") p ≡ true
  pub ssh_o : takes (codes "ssh") o ≡ true
  pub ssh_i : takes (codes "ssh") i ≡ true
  pub scp_P : takes (codes "scp") P ≡ true
  pub scp_o : takes (codes "scp") o ≡ true
  pub scp_i : takes (codes "scp") i ≡ true

-- An option with its value, a word of options without values, or another word.
pub data Argument : Type 0 where
  option : ℕ → Text → Argument
  switches operand : Text → Argument

-- A word that begins with a dash: none of its options has a value, or one has, which is the rest
-- of the word or, if that is empty, the next word.
pub data Word : Type 0 where
  no_value plain : Word
  value_next : ℕ → Word
  value_here : ℕ → Text → Word

module _ (takes : ℕ → Bool) where
  abbrev pub letters : Text → Word
  letters [] = no_value
  letters (l ∷ []) = if takes l then value_next l else no_value
  letters (l ∷ c ∷ cs) =
      let rest = letters (c ∷ cs) in if takes l then value_here l (c ∷ cs) else rest

  abbrev pub word : Text → Word
  word [] = plain
  word (c ∷ []) = plain
  word (c ∷ d ∷ ds) = if c == dash then letters (d ∷ ds) else plain

  -- What a list of words says; an option may be waiting for its value.
  abbrev pub options : Option ℕ → List Text → List Argument
  options waiting [] = []
  options (some l) (a ∷ words) = option l a ∷ options none words
  options none (a ∷ words) =
      let rest = options none words in
      let with_value = λ (l : ℕ). options (some l) words in
      elim (word a) [
        | no_value ↦ switches a ∷ rest
        | plain ↦ operand a ∷ rest
        | value_next l ↦ with_value l
        | value_here l v ↦ option l v ∷ rest
      ]

-- A word that is taken for no option.
abbrev pub is_operand : Text → Bool
is_operand [] = true
is_operand (c ∷ cs) = if c == dash then false else true

module _ (takes : ℕ → Bool) where
  pub word-is_operand : (t : Text) → is_operand t ≡ true → word takes t ≡ plain
  word-is_operand [] h = refl
  word-is_operand (c ∷ []) h = refl
  word-is_operand (c ∷ d ∷ ds) h = ground arith

  pub options-operand :
      (t : Text) (words : List Text)
      → is_operand t ≡ true
      → options takes none (t ∷ words) ≡ operand t ∷ options takes none words
  options-operand t words h = rw (word-is_operand t h, options)

  -- A word that is one option, and the word behind it.
  pub options-option :
      (l : ℕ) (v : Text) (words : List Text)
      → takes l ≡ true
      → options takes none ((dash ∷ l ∷ []) ∷ v ∷ words) ≡ option l v ∷ options takes none words
  options-option l v words h = rw (h, options)
