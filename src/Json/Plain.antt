-- ===== src/Json/Plain.antt =====
-- A concrete `JsonText`: not the characters of JSON, but a text that is read back as it was.
-- The examples run the program over it.
use goxfer.Base.{
  ℕ, zero, suc, ◌≤◌, ◌≡◌, refl, ap, ◌∙◌, true, false, [], ◌∷◌, ◌++◌, Option, none, some, Bytes,
  length, take, drop, take-append_length, drop-append_length, length-append, pos, negsuc, arith,
}
use goxfer.Json.{Json, JsonObject, JsonText, null, other, flag, num, text}

abbrev pub print_value : Json → Bytes
print_value null = 0 ∷ []
print_value other = 1 ∷ []
print_value (flag false) = 2 ∷ []
print_value (flag true) = 3 ∷ []
print_value (num (pos n)) = 4 ∷ n ∷ []
print_value (num (negsuc n)) = 5 ∷ n ∷ []
print_value (text t) = 6 ∷ length t ∷ t

abbrev pub print_object : JsonObject → Bytes
print_object [] = []
print_object ((k, v) ∷ o) = length k ∷ (k ++ (print_value v ++ print_object o))

pub parse_value : Bytes → Option (Json × Bytes)
parse_value (zero ∷ s) = some (null, s)
parse_value (suc zero ∷ s) = some (other, s)
parse_value (suc (suc zero) ∷ s) = some (flag false, s)
parse_value (suc (suc (suc zero)) ∷ s) = some (flag true, s)
parse_value (suc (suc (suc (suc zero))) ∷ n ∷ s) = some (num (pos n), s)
parse_value (suc (suc (suc (suc (suc zero)))) ∷ n ∷ s) = some (num (negsuc n), s)
parse_value (suc (suc (suc (suc (suc (suc zero))))) ∷ n ∷ s) = some (text (take n s), drop n s)
parse_value _ = none

pub parse_object : ℕ → Bytes → Option JsonObject
parse_object fuel [] = some []
parse_object zero (n ∷ s) = none
parse_object (suc fuel) (n ∷ s) = elim (parse_value (drop n s)) [
  | none ↦ none
  | some (v, rest) ↦ elim (parse_object fuel rest) [
    | none ↦ none
    | some o ↦ some ((take n s, v) ∷ o)
  ]
]

parse_value-print_value : (v : Json) (s : Bytes) → parse_value (print_value v ++ s) ≡ some (v, s)
unfolding parse_value
parse_value-print_value null s = refl
parse_value-print_value other s = refl
parse_value-print_value (flag false) s = refl
parse_value-print_value (flag true) s = refl
parse_value-print_value (num (pos n)) s = refl
parse_value-print_value (num (negsuc n)) s = refl
parse_value-print_value (text t) s = cc (take-append_length t s, drop-append_length t s)

parse_object_step :
    (fuel n : ℕ) (k s rest : Bytes) (v : Json) (o : JsonObject)
    → take n s ≡ k
    → parse_value (drop n s) ≡ some (v, rest)
    → parse_object fuel rest ≡ some o
    → parse_object (suc fuel) (n ∷ s) ≡ some ((k, v) ∷ o)
unfolding parse_object
parse_object_step fuel n k s rest v o ek ev eo = ground arith

pub parse_object-print_object :
    (o : JsonObject) (fuel : ℕ)
    → length (print_object o) ≤ fuel
    → parse_object fuel (print_object o) ≡ some o
unfolding parse_object
parse_object-print_object [] zero h = refl
parse_object-print_object [] (suc fuel) h = refl
parse_object-print_object ((k, v) ∷ o) zero h = elim h [ ]
parse_object-print_object ((k, v) ∷ o) (suc fuel) h =
    let rest = print_value v ++ print_object o in
    let fits : length (print_object o) ≤ fuel =
      omega (arith, length-append k rest, length-append (print_value v) (print_object o)) in
    parse_object_step fuel (length k) k (k ++ rest) (print_object o) v o (take-append_length k rest)
      (ap parse_value (drop-append_length k rest) ∙ parse_value-print_value v (print_object o))
      (parse_object-print_object o fuel fits)

unfoldable pub plain_text : JsonText
unfolding parse_object parse_value
plain_text = record {
  print = print_object;
  parse = λ s. parse_object (length s) s;
  parse-print = λ o _. parse_object-print_object o (length (print_object o)) (omega arith);
}
