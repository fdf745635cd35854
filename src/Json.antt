-- ===== src/Json.antt =====
-- encoding/json as the program uses it: structs of texts, integers and booleans are written as
-- flat objects and read back field by field. The characters of a JSON text are left to `JsonText`.
pub mod Utf8
pub mod Plain
use mathlib.Core.Option
use goxfer.Base.{
  ℕ, ◌+◌, ◌≡◌, sym, ◌∙◌, inl, inr, Option-cases, Bool, true, false, ◌&&◌, List, [], ◌∷◌, ◌++◌, map,
  Option, none, some, Bytes, Text, text_eq, is_empty, ℤ, pos, is_int64, ltb, leb, if◌then◌else◌,
  arith, Result, ok, err,
}
use Utf8.{is_utf8}

-- `other` stands for arrays, objects and fractions: no field of the program's structs takes them.
pub data Json : Type 0 where
  null other : Json
  flag : Bool → Json
  num : ℤ → Json
  text : Text → Json

abbrev pub JsonObject : Type 0
JsonObject = List (Text × Json)

-- Strings that are not UTF-8 are changed by json.Marshal.
abbrev pub is_utf8_object : JsonObject → Bool
is_utf8_object [] = true
is_utf8_object ((k, text t) ∷ o) = is_utf8 k && is_utf8 t && is_utf8_object o
is_utf8_object ((k, null) ∷ o) = is_utf8 k && is_utf8_object o
is_utf8_object ((k, other) ∷ o) = is_utf8 k && is_utf8_object o
is_utf8_object ((k, flag b) ∷ o) = is_utf8 k && is_utf8_object o
is_utf8_object ((k, num z) ∷ o) = is_utf8 k && is_utf8_object o

-- The text of an object; `parse` reads `null` as an object with no fields.
pub record JsonText : Type 0 where
  pub print : JsonObject → Bytes
  pub parse : Bytes → Option JsonObject
  pub parse-print : (o : JsonObject) → is_utf8_object o ≡ true → parse (print o) ≡ some o

-- A key names a field up to the case of its letters.
abbrev to_lower : ℕ → ℕ
to_lower c = if leb b'A' c && leb c b'Z' then c + 32 else c

unfoldable pub names_field : Text → Text → Bool
unfolding text_eq
names_field key field = text_eq (map to_lower key) field

-- A value for a field that holds `old`: `null` leaves it, another kind of value is an error.
abbrev pub read_text : Json → Text → Option Text
read_text (text t) old = some t
read_text null old = some old
read_text (flag b) old = none
read_text (num z) old = none
read_text other old = none

abbrev pub read_int64 : Json → ℤ → Option ℤ
read_int64 (num z) old = if is_int64 z then some z else none
read_int64 null old = some old
read_int64 (text t) old = none
read_int64 (flag b) old = none
read_int64 other old = none

abbrev pub read_bool : Json → Bool → Option Bool
read_bool (flag b) old = some b
read_bool null old = some old
read_bool (text t) old = none
read_bool (num z) old = none
read_bool other old = none

-- `omitempty`
abbrev pub omit_empty : Text → Text → JsonObject
omit_empty key t = if is_empty t then [] else (key, text t) ∷ []

abbrev pub is_zero : ℤ → Bool
is_zero (pos n) = if ltb 0 n then false else true
is_zero (ℤ.negsuc n) = false

abbrev pub omit_zero : Text → ℤ → JsonObject
omit_zero key z = if is_zero z then [] else (key, num z) ∷ []

abbrev pub omit_false : Text → Bool → JsonObject
omit_false key b = if b then (key, flag true) ∷ [] else []

-- The fields are set in the order in which they stand; a repeated key overwrites.
module _ {A : Type 0} (set_field : Text → Json → A → Option A) where
  unfoldable pub set_fields : JsonObject → A → Option A
  set_fields [] a = some a
  set_fields ((k, v) ∷ o) a = elim (set_field k v a) [ none ↦ none | some b ↦ set_fields o b ]

  pub set_fields-none :
      (k : Text) (v : Json) (o : JsonObject) (a : A)
      → set_field k v a ≡ none
      → set_fields ((k, v) ∷ o) a ≡ none
  unfolding set_fields
  set_fields-none k v o a e = rw (e, set_fields)

  pub set_fields-some :
      (k : Text) (v : Json) (o : JsonObject) (a : A) {b : A}
      → set_field k v a ≡ some b
      → set_fields ((k, v) ∷ o) a ≡ set_fields o b
  unfolding set_fields
  set_fields-some k v o a e = rw (e, set_fields)

  pub set_fields-append :
      (o p : JsonObject) (a : A) {b : A}
      → set_fields o a ≡ some b
      → set_fields (o ++ p) a ≡ set_fields p b
  unfolding set_fields
  set_fields-append [] p a h = ground arith
  set_fields-append ((k, v) ∷ o) p a h = elim (Option-cases (set_field k v a)) [
    | inl e ↦ cc (sym (set_fields-none k v o a e) ∙ h)
    | inr (b, e) ↦
        set_fields-some k v (o ++ p) a e
        ∙ set_fields-append o p b (sym (set_fields-some k v o a e) ∙ h)
  ]
