-- ===== src/Cli/Flags.antt =====
-- The flag package's reading of arguments, as cmd/main.go uses it.
use goxfer.Base.{
  ℕ, Bool, true, ◌||◌, List, [], ◌∷◌, Option, none, some, Text, codes, text_eq, ℤ, ◌==◌,
  if◌then◌else◌,
}
use goxfer.Base.Dict.{Dict, lookup, insert}
use goxfer.Cli.Numbers.{parse_int, parse_bool}

pub data Kind : Type 0 where
  text_flag bool_flag int_flag : Kind

pub data Value : Type 0 where
  of_text : Text → Value
  of_bool : Bool → Value
  of_int : ℤ → Value

-- The flags that were set, with their last value, and the arguments behind them.
pub data Parsed : Type 0 where
  parsed : Dict Value → List Text → Parsed
  help_wanted bad_flag : Parsed

-- What an argument is: the end of the flags, the `--` that ends them, or a flag with the text behind `=`.
pub data Argument : Type 0 where
  operand terminator bad_syntax : Argument
  named : Text → Option Text → Argument

abbrev prefixed : ℕ → Text × Option Text → Text × Option Text
prefixed c (name, value) = (c ∷ name, value)

abbrev split_value : Text → Text × Option Text
split_value [] = ([], none)
split_value (c ∷ s) =
    let rest = split_value s in if c == b'=' then ([], some s) else prefixed c rest

abbrev named_by : Text × Option Text → Argument
named_by (name, value) = named name value

abbrev flag_name : Text → Argument
flag_name [] = bad_syntax
flag_name (c ∷ s) =
    if c == b'-' || c == b'=' then bad_syntax else named_by (prefixed c (split_value s))

abbrev pub classify : Text → Argument
classify [] = operand
classify (m ∷ []) = operand
classify (m ∷ c ∷ []) =
    if m == b'-' then (if c == b'-' then terminator else flag_name (c ∷ [])) else operand
classify (m ∷ c ∷ d ∷ s) =
    if m == b'-' then (if c == b'-' then flag_name (d ∷ s) else flag_name (c ∷ d ∷ s)) else operand

abbrev map_value : {A : Type 0} → (A → Value) → Option A → Option Value
map_value f none = none
map_value f (some a) = some (f a)

-- Set
abbrev pub read_value : Kind → Text → Option Value
read_value text_flag t = some (of_text t)
read_value bool_flag t = map_value of_bool (parse_bool t)
read_value int_flag t = map_value of_int (parse_int t)

-- What becomes of a flag: it has its value, the next argument is its value, or the reading ends.
pub data Action : Type 0 where
  assign : Value → Action
  wants : Kind → Action
  give_up : Parsed → Action

abbrev assigned : Option Value → Action
assigned none = give_up bad_flag
assigned (some v) = assign v

abbrev action_of : Kind → Option Text → Action
action_of k (some t) = assigned (read_value k t)
action_of bool_flag none = assign (of_bool true)
action_of text_flag none = wants text_flag
action_of int_flag none = wants int_flag

abbrev pub action : Text → Option Text → Option Kind → Action
action name value (some k) = action_of k value
action name value none =
    if text_eq name (codes "help") || text_eq name (codes "h")
    then give_up help_wanted
    else give_up bad_flag

module _ (known : List (Text × Kind)) where
  -- `waiting`: a flag whose value is the next argument.
  unfoldable pub parse_from : Option (Text × Kind) → List Text → Dict Value → Parsed
  parse_from none [] d = parsed d []
  parse_from (some w) [] d = bad_flag
  parse_from (some (name, k)) (arg ∷ args) d = elim (read_value k arg) [
    | none ↦ bad_flag
    | some v ↦ parse_from none args (insert name v d)
  ]
  parse_from none (arg ∷ args) d = elim (classify arg) [
    | operand ↦ parsed d (arg ∷ args)
    | terminator ↦ parsed d args
    | bad_syntax ↦ bad_flag
    | named name value ↦ elim (action name value (lookup name known)) [
      | assign v ↦ parse_from none args (insert name v d)
      | wants k ↦ parse_from (some (name, k)) args d
      | give_up p ↦ p
    ]
  ]

  abbrev pub parse_flags : List Text → Parsed
  parse_flags args = parse_from none args []
