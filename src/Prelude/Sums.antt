-- ===== src/Prelude/Sums.antt =====
-- Lists of bits, added place by place.
use Prim.Native.Nat.{ℕ, zero, suc, ◌+◌, ◌/◌, ◌%◌, ◌^◌, ◌<◌, bit_xor, differ}
use mathlib.Core.Path.{◌≡◌, refl, ap, ap₂, ◌∙◌, sym}
use mathlib.Core.List.{List, [], ◌∷◌, ◌++◌}
use native.Mathlib.Nat.{pow-suc, mul_comm, div-div-eq-div-mul}
use native.Mathlib.Omega.{arith}
use gr_ccsds.Prelude.Lists.{length}
use gr_ccsds.Prelude.Bits.{bit_xor_step}
use gr_ccsds.Prelude.BitLists.{bits_of}

-- The sum without carries of two lists of bits, as long as the shorter one.
unfoldable pub add_bits : List ℕ → List ℕ → List ℕ
add_bits [] ys = []
add_bits (x ∷ xs) [] = []
add_bits (x ∷ xs) (y ∷ ys) = (x + y) % 2 ∷ add_bits xs ys

pub add_bits-append :
    (xs xs' ys ys' : List ℕ)
    → length xs ≡ length ys
    → add_bits (xs ++ xs') (ys ++ ys') ≡ add_bits xs ys ++ add_bits xs' ys'
unfolding add_bits
add_bits-append [] xs' [] ys' e = refl
add_bits-append [] xs' (y ∷ ys) ys' e = absurd (omega arith)
add_bits-append (x ∷ xs) xs' [] ys' e = absurd (omega arith)
add_bits-append (x ∷ xs) xs' (y ∷ ys) ys' e =
    ap (λ l. (x + y) % 2 ∷ l) (add_bits-append xs xs' ys ys' (omega arith))

differ_sum : (p q : ℕ) → p < 2 → q < 2 → differ p q ≡ (p + q) % 2
differ_sum zero zero hp hq = refl
differ_sum zero (suc zero) hp hq = refl
differ_sum (suc zero) zero hp hq = refl
differ_sum (suc zero) (suc zero) hp hq = refl
differ_sum (suc (suc p)) q hp hq = absurd (omega arith)
differ_sum p (suc (suc q)) hp hq = absurd (omega arith)

halves : (n x : ℕ) → x / 2 ^ suc n ≡ x / 2 / 2 ^ n
halves n x =
    ap (λ p. x / p) (pow-suc 2 n ∙ mul_comm (2 ^ n) 2) ∙ sym (div-div-eq-div-mul x 2 (2 ^ n))

-- One bit of an exclusive or.
bit_xor-bit : (n a b : ℕ) → bit_xor a b / 2 ^ n % 2 ≡ (a / 2 ^ n % 2 + b / 2 ^ n % 2) % 2
bit_xor-bit zero a b =
    omega (arith, bit_xor_step a b, differ_sum (a % 2) (b % 2) (omega arith) (omega arith))
bit_xor-bit (suc n) a b =
    let step = bit_xor_step a b in
    let low = differ_sum (a % 2) (b % 2) (omega arith) (omega arith) in
    let high : bit_xor a b / 2 ≡ bit_xor (a / 2) (b / 2) = omega arith in
    rw (halves n (bit_xor a b), halves n a, halves n b, high) (bit_xor-bit n (a / 2) (b / 2))

pub bits_of-bit_xor : (n a b : ℕ) → bits_of n (bit_xor a b) ≡ add_bits (bits_of n a) (bits_of n b)
unfolding bits_of add_bits
bits_of-bit_xor zero a b = refl
bits_of-bit_xor (suc n) a b = ap₂ ◌∷◌ (bit_xor-bit n a b) (bits_of-bit_xor n a b)
