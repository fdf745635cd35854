-- ===== src/Json/Utf8.antt =====
-- unicode/utf8: which byte sequences json.Marshal writes unchanged.
use goxfer.Base.{
  ℕ, Bool, true, false, ◌&&◌, List, [], ◌∷◌, Option, none, some, Text, ltb, leb, ◌==◌,
  if◌then◌else◌,
}

abbrev tail_range : ℕ × ℕ
tail_range = (0x80, 0xbf)

-- The ranges of the bytes that follow a first byte.
abbrev following : ℕ → Option (List (ℕ × ℕ))
following c =
    if ltb c 0x80
    then some []
    else if ltb c 0xc2
    then none
    else if ltb c 0xe0
    then some (tail_range ∷ [])
    else if c == 0xe0
    then some ((0xa0, 0xbf) ∷ tail_range ∷ [])
    else if c == 0xed
    then some ((0x80, 0x9f) ∷ tail_range ∷ [])
    else if ltb c 0xf0
    then some (tail_range ∷ tail_range ∷ [])
    else if c == 0xf0
    then some ((0x90, 0xbf) ∷ tail_range ∷ tail_range ∷ [])
    else if ltb c 0xf4
    then some (tail_range ∷ tail_range ∷ tail_range ∷ [])
    else if c == 0xf4
    then some ((0x80, 0x8f) ∷ tail_range ∷ tail_range ∷ [])
    else none

is_utf8_from : List (ℕ × ℕ) → Text → Bool
is_utf8_from [] [] = true
is_utf8_from (r ∷ rs) [] = false
is_utf8_from [] (c ∷ s) = elim (following c) [ none ↦ false | some rs ↦ is_utf8_from rs s ]
is_utf8_from ((lo, hi) ∷ rs) (c ∷ s) = leb lo c && leb c hi && is_utf8_from rs s

unfoldable pub is_utf8 : Text → Bool
unfolding is_utf8_from
is_utf8 s = is_utf8_from [] s
