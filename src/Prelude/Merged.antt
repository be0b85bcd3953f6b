-- ===== src/Prelude/Merged.antt =====
-- Bits set beside each other: where two numbers have no digit in common, their bitwise or is their sum.
use Prim.Native.Nat.{
  ℕ, zero, suc, ◌+◌, ◌*◌, ◌/◌, ◌%◌, ◌^◌, ◌≤◌, ◌<◌, max, digits, bit_or, bit_or-bitwise,
}
use mathlib.Core.Path.{◌≡◌, refl, ap, ◌∙◌, sym}
use native.Mathlib.Nat.{pow-suc, mul_assoc}
use native.Mathlib.Omega.{arith}

abbrev or_digits : ℕ → ℕ → ℕ → ℕ
or_digits n a b = digits (λ d. d) max n a b

enough_rounds : (m n a b : ℕ) → a ≤ m → a ≤ n → or_digits m a b ≡ or_digits n a b
enough_rounds zero zero a b hm hn = refl
enough_rounds (suc m) zero zero b hm hn = refl
enough_rounds (suc m) zero (suc a) b hm hn = absurd (omega arith)
enough_rounds zero (suc n) zero b hm hn = refl
enough_rounds zero (suc n) (suc a) b hm hn = absurd (omega arith)
enough_rounds (suc m) (suc n) zero b hm hn = refl
enough_rounds (suc m) (suc n) (suc a) b hm hn =
    omega (arith, enough_rounds m n (suc a / 2) (b / 2) (omega arith) (omega arith))

zero-bit_or : (b : ℕ) → bit_or 0 b ≡ b
zero-bit_or b = bit_or-bitwise 0 b

bit_or_step : (a b : ℕ) → bit_or a b ≡ bit_or (a / 2) (b / 2) * 2 + max (a % 2) (b % 2)
bit_or_step zero b = omega (arith, zero-bit_or b, zero-bit_or (b / 2))
bit_or_step (suc a) b = omega (
  arith,
  bit_or-bitwise (suc a) b,
  bit_or-bitwise (suc a / 2) (b / 2),
  enough_rounds a (suc a / 2) (suc a / 2) (b / 2) (omega arith) (omega arith),
)

bit_or-zero_below : (n a : ℕ) → a ≤ n → bit_or a 0 ≡ a
bit_or-zero_below zero zero h = zero-bit_or 0
bit_or-zero_below zero (suc a) h = absurd (omega arith)
bit_or-zero_below (suc n) a h =
    omega (arith, bit_or_step a 0, bit_or-zero_below n (a / 2) (omega arith))

bit_or-double : (c b : ℕ) → bit_or (c * 2) b ≡ bit_or c (b / 2) * 2 + b % 2
bit_or-double c b =
    let half : c * 2 / 2 ≡ c = omega arith in
    let even : c * 2 % 2 ≡ 0 = omega arith in bit_or_step (c * 2) b ∙ rw (half, even) (omega arith)

bit_or-double_low : (c b : ℕ) → bit_or b (c * 2) ≡ bit_or (b / 2) c * 2 + b % 2
bit_or-double_low c b =
    let half : c * 2 / 2 ≡ c = omega arith in
    let even : c * 2 % 2 ≡ 0 = omega arith in bit_or_step b (c * 2) ∙ rw (half, even) (omega arith)

-- The high number first.
pub bit_or-add : (k a b : ℕ) → b < 2 ^ k → bit_or (a * 2 ^ k) b ≡ a * 2 ^ k + b
bit_or-add zero a zero h = bit_or-zero_below (a * 1) (a * 1) (omega arith) ∙ omega arith
bit_or-add zero a (suc b) h = absurd (omega arith)
bit_or-add (suc k) a b h =
    let power = pow-suc 2 k in
    let split : a * 2 ^ suc k ≡ a * 2 ^ k * 2 =
      ap (λ p. a * p) power ∙ sym (mul_assoc a (2 ^ k) 2) in
    rw split (omega (arith, bit_or-double (a * 2 ^ k) b, bit_or-add k a (b / 2) (omega arith)))

-- The low number first.
pub bit_or-add_low : (k a b : ℕ) → b < 2 ^ k → bit_or b (a * 2 ^ k) ≡ a * 2 ^ k + b
bit_or-add_low zero a zero h = zero-bit_or (a * 1) ∙ omega arith
bit_or-add_low zero a (suc b) h = absurd (omega arith)
bit_or-add_low (suc k) a b h =
    let power = pow-suc 2 k in
    let split : a * 2 ^ suc k ≡ a * 2 ^ k * 2 =
      ap (λ p. a * p) power ∙ sym (mul_assoc a (2 ^ k) 2) in
    rw split
      (omega (arith, bit_or-double_low (a * 2 ^ k) b, bit_or-add_low k a (b / 2) (omega arith)))
