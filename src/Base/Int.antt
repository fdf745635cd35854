-- ===== src/Base/Int.antt =====
-- Signed integers, and Go's 64-bit `int` and `int64` with their wrap-around.
use Prim.Native.Nat.{ℕ, zero, suc, ◌+◌, ◌-◌, ◌*◌, ◌/◌, ◌%◌, ◌^◌, ◌<◌}
use mathlib.Core.Path.{◌≡◌}
use mathlib.Core.Logic.{◌↔◌}
use mathlib.Core.Bool.{Bool, true, false}
use native.Mathlib.Omega.{arith}
use goxfer.Base.Tests.{◌==◌, ltb, if◌then◌else◌, lt→ltb}

-- `negsuc n` is -(n + 1).
pub data ℤ : Type 0 where
  pos : ℕ → ℤ
  negsuc : ℕ → ℤ

unfoldable pub eq_ℤ : ℤ → ℤ → Bool
eq_ℤ (pos m) (pos n) = m == n
eq_ℤ (pos m) (negsuc n) = false
eq_ℤ (negsuc m) (pos n) = false
eq_ℤ (negsuc m) (negsuc n) = m == n

pub eq_ℤ_iff : (a b : ℤ) → (eq_ℤ a b ≡ true) ↔ (a ≡ b)
unfolding eq_ℤ
eq_ℤ_iff (pos m) (pos n) = ground arith
eq_ℤ_iff (pos m) (negsuc n) = ground arith
eq_ℤ_iff (negsuc m) (pos n) = ground arith
eq_ℤ_iff (negsuc m) (negsuc n) = ground arith

-- `z < 0` and `z > 0`
abbrev pub is_negative : ℤ → Bool
is_negative (pos n) = false
is_negative (negsuc n) = true

abbrev pub is_positive : ℤ → Bool
is_positive (pos n) = ltb 0 n
is_positive (negsuc n) = false

-- Reduction to 64 bits in two's complement.
abbrev pub word_of : ℤ → ℕ
word_of (pos n) = n % 2 ^ 64
word_of (negsuc n) = 2 ^ 64 - 1 - n % 2 ^ 64

abbrev pub of_word : ℕ → ℤ
of_word w = if ltb w (2 ^ 63) then pos w else negsuc (2 ^ 64 - 1 - w)

unfoldable pub wrap64 : ℤ → ℤ
wrap64 z = of_word (word_of z)

-- The values of an `int64`.
abbrev pub is_int64 : ℤ → Bool
is_int64 (pos n) = ltb n (2 ^ 63)
is_int64 (negsuc n) = ltb n (2 ^ 63)

pub wrap64_lem : (z : ℤ) → is_int64 z ≡ true → wrap64 z ≡ z
unfolding wrap64
wrap64_lem (pos n) h = ground arith
wrap64_lem (negsuc n) h = ground arith

-- `z++`, and `z * k` for a constant `k`.
unfoldable pub inc64 : ℤ → ℤ
unfolding wrap64
inc64 (pos n) = wrap64 (pos (n + 1))
inc64 (negsuc zero) = pos 0
inc64 (negsuc (suc n)) = negsuc n

unfoldable pub scale64 : ℤ → ℕ → ℤ
unfolding wrap64
scale64 (pos n) k = wrap64 (pos (n * k))
scale64 (negsuc n) zero = pos 0
scale64 (negsuc n) (suc k) = wrap64 (negsuc (n * suc k + k))

-- `z / k` for a positive constant `k`: Go truncates towards zero.
abbrev pub negate : ℕ → ℤ
negate zero = pos 0
negate (suc n) = negsuc n

unfoldable pub quotient : ℤ → ℕ → ℤ
quotient (pos n) k = pos (n / k)
quotient (negsuc n) k = negate (suc n / k)

pub inc64_lem : (n : ℕ) → n + 1 < 2 ^ 63 → inc64 (pos n) ≡ pos (n + 1)
unfolding inc64
inc64_lem n h = ground arith

pub scale64_lem : (n k : ℕ) → n * k < 2 ^ 63 → scale64 (pos n) k ≡ pos (n * k)
unfolding scale64
scale64_lem n k h = wrap64_lem (pos (n * k)) (lt→ltb _ _ h)
