-- ===== src/Base/Family.antt =====
-- Families over the natural numbers: a change at one index, and sums over the first indices.
use Prim.Native.Nat.{ℕ, zero, suc, ◌+◌, ◌*◌, ◌≤◌, ◌<◌}
use mathlib.Core.Path.{◌≡◌, refl}
use mathlib.Core.Logic.{inl, inr}
use native.Mathlib.Omega.{arith}
use goxfer.Base.Tests.{◌==◌, ltb, if◌then◌else◌, Bool-cases, ltb→lt, ltb→le}

unfoldable pub set : {A : Type 0} → (ℕ → A) → ℕ → A → ℕ → A
set f c a i = if c == i then a else f i

module _ {A : Type 0} (weight : A → ℕ) where
  abbrev pub total : ℕ → (ℕ → A) → ℕ
  total zero f = 0
  total (suc n) f = weight (f n) + total n f

  total-set_above : (n : ℕ) (f : ℕ → A) (i : ℕ) (a : A) → n ≤ i → total n (set f i a) ≡ total n f
  unfolding set
  total-set_above zero f i a h = refl
  total-set_above (suc n) f i a h = ground (arith, total-set_above n f i a)

  -- A change at one index changes the sum by what the weight there changes.
  pub total-set :
      (n : ℕ) (f : ℕ → A) (i : ℕ) (a : A)
      → i < n
      → total n (set f i a) + weight (f i) ≡ total n f + weight a
  unfolding set
  total-set zero f i a h = absurd (omega arith)
  total-set (suc n) f i a h = elim (Bool-cases (i == n)) [
    | inl last ↦ ground (arith, total-set_above n f i a)
    | inr below ↦ ground (arith, total-set n f i a)
  ]

  pub total_le : (n k : ℕ) (f : ℕ → A) → ((i : ℕ) → i < n → weight (f i) ≤ k) → total n f ≤ n * k
  total_le zero k f h = omega arith
  total_le (suc n) k f h =
      let below = total_le n k f (λ i lt. h i (omega arith)) in
      let last = h n (omega arith) in grind arith

  pub total_zero : (n : ℕ) (f : ℕ → A) → ((i : ℕ) → weight (f i) ≡ 0) → total n f ≡ 0
  total_zero zero f h = refl
  total_zero (suc n) f h = omega (arith, h n, total_zero n f h)

-- A weight that is nowhere above another sums to no more.
pub total_mono :
    {A : Type 0} (v w : A → ℕ) (n : ℕ) (f : ℕ → A)
    → ((i : ℕ) → v (f i) ≤ w (f i))
    → total v n f ≤ total w n f
total_mono v w zero f h = omega arith
total_mono v w (suc n) f h = omega (arith, h n, total_mono v w n f h)

-- A sum above `n * k` has an index where the weight is above `k`.
pub total_above :
    {A : Type 0} (w : A → ℕ) (n k : ℕ) (f : ℕ → A)
    → n * k < total w n f
    → (i : ℕ) × i < n × k < w (f i)
total_above w zero k f h = absurd (omega arith)
total_above w (suc n) k f h = elim (Bool-cases (ltb k (w (f n)))) [
  | inl t ↦ (n, omega arith, ltb→lt k (w (f n)) t)
  | inr t ↦
      let small = ltb→le k (w (f n)) t in
      let below = total_above w n k f (grind arith) in (below.0, omega (arith, below.1), below.2)
]

pub total_below :
    {A : Type 0} (w : A → ℕ) (n k : ℕ) (f : ℕ → A)
    → total w n f < n * k
    → (i : ℕ) × i < n × w (f i) < k
total_below w zero k f h = absurd (omega arith)
total_below w (suc n) k f h = elim (Bool-cases (ltb (w (f n)) k)) [
  | inl t ↦ (n, omega arith, ltb→lt (w (f n)) k t)
  | inr t ↦
      let large = ltb→le (w (f n)) k t in
      let below = total_below w n k f (grind arith) in (below.0, omega (arith, below.1), below.2)
]
