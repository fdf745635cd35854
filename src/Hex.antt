-- ===== src/Hex.antt =====
-- encoding/hex and the decimal numbers of fmt.
use goxfer.Base.{
  ℕ, zero, suc, ◌+◌, ◌-◌, ◌*◌, ◌/◌, ◌%◌, ◌≡◌, refl, [], ◌∷◌, Bytes, Text, length, ℤ, pos, negsuc,
  ltb, if◌then◌else◌, arith,
}

abbrev pub hex_digit : ℕ → ℕ
hex_digit d = if ltb d 10 then b'0' + d else b'a' + (d - 10)

-- hex.EncodeToString, and `%x` of a byte slice
unfoldable pub hex_encode : Bytes → Text
hex_encode [] = []
hex_encode (b ∷ bs) = hex_digit (b / 16) ∷ hex_digit (b % 16) ∷ hex_encode bs

pub length-hex_encode : (bs : Bytes) → length (hex_encode bs) ≡ 2 * length bs
unfolding hex_encode
length-hex_encode [] = refl
length-hex_encode (b ∷ bs) = omega (arith, length-hex_encode bs)

-- `%d`: the digits of `n` in front of `acc`, while the fuel lasts; `n` has fewer digits than `n + 1`.
unfoldable pub digits_onto : ℕ → ℕ → Text → Text
digits_onto zero n acc = acc
digits_onto (suc fuel) n acc =
    let rest = digits_onto fuel (n / 10) ((b'0' + n % 10) ∷ acc) in
    if ltb n 10 then (b'0' + n) ∷ acc else rest

unfoldable pub decimal : ℤ → Text
unfolding digits_onto
decimal (pos n) = digits_onto (suc n) n []
decimal (negsuc n) = b'-' ∷ digits_onto (suc (suc n)) (suc n) []
