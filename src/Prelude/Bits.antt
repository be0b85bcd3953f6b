-- ===== src/Prelude/Bits.antt =====
-- Exclusive or on variables: it is taken bit by bit, undoes itself, and stays within a width.
use Prim.Native.Nat.{
  ℕ, zero, suc, ◌+◌, ◌*◌, ◌/◌, ◌%◌, ◌^◌, ◌≤◌, ◌<◌, differ, digits, bit_xor, bit_xor-bitwise,
}
use mathlib.Core.Path.{◌≡◌, refl, ◌∙◌}
use native.Mathlib.Nat.{pow-suc}
use native.Mathlib.Omega.{arith}

abbrev xor_digits : ℕ → ℕ → ℕ → ℕ
xor_digits n a b = digits (λ d. d) differ n a b

-- More rounds than the first number needs change nothing.
enough_rounds : (m n a b : ℕ) → a ≤ m → a ≤ n → xor_digits m a b ≡ xor_digits n a b
enough_rounds zero zero a b hm hn = refl
enough_rounds (suc m) zero zero b hm hn = refl
enough_rounds (suc m) zero (suc a) b hm hn = absurd (omega arith)
enough_rounds zero (suc n) zero b hm hn = refl
enough_rounds zero (suc n) (suc a) b hm hn = absurd (omega arith)
enough_rounds (suc m) (suc n) zero b hm hn = refl
enough_rounds (suc m) (suc n) (suc a) b hm hn =
    omega (arith, enough_rounds m n (suc a / 2) (b / 2) (omega arith) (omega arith))

pub zero-bit_xor : (b : ℕ) → bit_xor 0 b ≡ b
zero-bit_xor b = bit_xor-bitwise 0 b

pub bit_xor_step : (a b : ℕ) → bit_xor a b ≡ bit_xor (a / 2) (b / 2) * 2 + differ (a % 2) (b % 2)
bit_xor_step zero b = omega (arith, zero-bit_xor b, zero-bit_xor (b / 2))
bit_xor_step (suc a) b = omega (
  arith,
  bit_xor-bitwise (suc a) b,
  bit_xor-bitwise (suc a / 2) (b / 2),
  enough_rounds a (suc a / 2) (suc a / 2) (b / 2) (omega arith) (omega arith),
)

differ-lt : (p q : ℕ) → p < 2 → q < 2 → differ p q < 2
differ-lt zero q hp hq = hq
differ-lt (suc zero) zero hp hq = omega arith
differ-lt (suc zero) (suc q) hp hq = omega arith
differ-lt (suc (suc p)) q hp hq = absurd (omega arith)

differ_twice : (p q : ℕ) → p < 2 → q < 2 → differ (differ p q) q ≡ p
differ_twice zero zero hp hq = refl
differ_twice (suc p) zero hp hq = refl
differ_twice zero (suc zero) hp hq = refl
differ_twice (suc zero) (suc zero) hp hq = refl
differ_twice (suc (suc p)) (suc q) hp hq = absurd (omega arith)
differ_twice p (suc (suc q)) hp hq = absurd (omega arith)

bit_xor-lt-pow : (k a b : ℕ) → a < 2 ^ k → b < 2 ^ k → bit_xor a b < 2 ^ k
bit_xor-lt-pow zero zero zero ha hb = omega arith
bit_xor-lt-pow zero zero (suc b) ha hb = absurd (omega arith)
bit_xor-lt-pow zero (suc a) b ha hb = absurd (omega arith)
bit_xor-lt-pow (suc k) a b ha hb = omega (
  arith,
  pow-suc 2 k,
  bit_xor_step a b,
  differ-lt (a % 2) (b % 2) (omega arith) (omega arith),
  bit_xor-lt-pow k (a / 2) (b / 2) (omega (arith, pow-suc 2 k)) (omega (arith, pow-suc 2 k)),
)

-- Two bytes give a byte.
pub bit_xor-lt : (a b : ℕ) → a < 256 → b < 256 → bit_xor a b < 256
bit_xor-lt = bit_xor-lt-pow 8

bit_xor_twice_below : (n a b : ℕ) → a ≤ n → b ≤ n → bit_xor (bit_xor a b) b ≡ a
bit_xor_twice_below zero zero zero ha hb = refl
bit_xor_twice_below zero (suc a) b ha hb = absurd (omega arith)
bit_xor_twice_below zero zero (suc b) ha hb = absurd (omega arith)
bit_xor_twice_below (suc n) a b ha hb =
    let once = bit_xor_step a b in
    let low = differ-lt (a % 2) (b % 2) (omega arith) (omega arith) in
    let high : bit_xor a b / 2 ≡ bit_xor (a / 2) (b / 2) = omega arith in
    let bit : bit_xor a b % 2 ≡ differ (a % 2) (b % 2) = omega arith in
    let twice = bit_xor_step (bit_xor a b) b in
    let bits = differ_twice (a % 2) (b % 2) (omega arith) (omega arith) in
    let rest = bit_xor_twice_below n (a / 2) (b / 2) (omega arith) (omega arith) in
    twice ∙ rw (high, bit, rest, bits) (omega arith)

-- The second exclusive or with the same number undoes the first.
pub bit_xor_twice : (a b : ℕ) → bit_xor (bit_xor a b) b ≡ a
bit_xor_twice a b = bit_xor_twice_below (a + b) a b (omega arith) (omega arith)
