-- ===== src/Prelude/BitLists.antt =====
-- Numbers as lists of their bits, the highest one first.
use Prim.Native.Nat.{ℕ, zero, suc, ◌+◌, ◌-◌, ◌*◌, ◌/◌, ◌%◌, ◌^◌, ◌≤◌, ◌<◌}
use mathlib.Core.Path.{◌≡◌, refl, ap, ap₂, ◌∙◌, sym}
use mathlib.Core.List.{List, [], ◌∷◌, ◌++◌, append_assoc}
use native.Mathlib.Nat.{
  pow-suc, mul_assoc, mul_comm, div-div-eq-div-mul, mul-add-div_right, div-eq_of_lt, div-add-mod',
  mod-lt, one-le-pow,
}
use native.Mathlib.Omega.{arith}
use gr_ccsds.Prelude.Lists.{length, length-append, take}

-- The `n` lowest bits.
unfoldable pub bits_of : ℕ → ℕ → List ℕ
bits_of zero x = []
bits_of (suc n) x = x / 2 ^ n % 2 ∷ bits_of n x

-- The bits of bytes, one behind the other.
abbrev pub bits_in : List ℕ → List ℕ
bits_in [] = []
bits_in (b ∷ s) = bits_of 8 b ++ bits_in s

pub bits_in-append : (s t : List ℕ) → bits_in (s ++ t) ≡ bits_in s ++ bits_in t
bits_in-append [] t = refl
bits_in-append (b ∷ s) t =
    ap (λ l. bits_of 8 b ++ l) (bits_in-append s t)
    ∙ sym (append_assoc (bits_of 8 b) (bits_in s) (bits_in t))

pub length-bits_of : (n x : ℕ) → length (bits_of n x) ≡ n
unfolding bits_of
length-bits_of zero x = refl
length-bits_of (suc n) x = ap suc (length-bits_of n x)

pub two_pow-pos : (n : ℕ) → 0 < 2 ^ n
two_pow-pos n = one-le-pow n 2 (omega arith)

pub pow-add : (n j : ℕ) → 2 ^ (n + j) ≡ 2 ^ n * 2 ^ j
pow-add zero j =
    let none_before : 0 + j ≡ j = omega arith in ap (λ k. 2 ^ k) none_before ∙ omega arith
pow-add (suc n) j =
    let later : suc n + j ≡ suc (n + j) = omega arith in
    ap (λ k. 2 ^ k) later
    ∙ pow-suc 2 (n + j)
    ∙ ap (λ p. p * 2) (pow-add n j)
    ∙ mul_assoc (2 ^ n) (2 ^ j) 2
    ∙ ap (λ p. 2 ^ n * p) (mul_comm (2 ^ j) 2)
    ∙ sym (mul_assoc (2 ^ n) 2 (2 ^ j))
    ∙ ap (λ p. p * 2 ^ j) (sym (pow-suc 2 n))

pub length-bits_in : (s : List ℕ) → length (bits_in s) ≡ 8 * length s
length-bits_in [] = refl
length-bits_in (b ∷ s) =
    omega (arith, length-append (bits_of 8 b) (bits_in s), length-bits_of 8 b, length-bits_in s)

-- Higher bits make no difference.
pub bits_of-high : (j a b : ℕ) → bits_of j (a * 2 ^ j + b) ≡ bits_of j b
unfolding bits_of
bits_of-high zero a b = refl
bits_of-high (suc j) a b =
    let split : a * 2 ^ suc j ≡ a * 2 * 2 ^ j =
      ap (λ p. a * p) (pow-suc 2 j ∙ mul_comm (2 ^ j) 2) ∙ sym (mul_assoc a 2 (2 ^ j)) in
    ap₂ ◌∷◌
      (ap (λ x. (x + b) / 2 ^ j % 2) split
        ∙ ap (λ x. x % 2) (mul-add-div_right (two_pow-pos j) (a * 2) b)
        ∙ omega arith)
      (ap (λ x. bits_of j (x + b)) split ∙ bits_of-high j (a * 2) b)

-- The bits of two numbers that stand beside each other.
pub bits_of-join :
    (n j a b : ℕ) → b < 2 ^ j → bits_of (n + j) (a * 2 ^ j + b) ≡ bits_of n a ++ bits_of j b
unfolding bits_of
bits_of-join zero j a b h =
    let none_before : 0 + j ≡ j = omega arith in
    ap (λ k. bits_of k (a * 2 ^ j + b)) none_before ∙ bits_of-high j a b
bits_of-join (suc n) j a b h =
    let later : suc n + j ≡ suc (n + j) = omega arith in
    ap (λ k. bits_of k (a * 2 ^ j + b)) later
    ∙ ap₂ ◌∷◌
        (ap (λ p. (a * 2 ^ j + b) / p % 2) (pow-add n j ∙ mul_comm (2 ^ n) (2 ^ j))
          ∙ ap (λ x. x % 2) (sym (div-div-eq-div-mul (a * 2 ^ j + b) (2 ^ j) (2 ^ n)))
          ∙ ap (λ x. x / 2 ^ n % 2)
              (mul-add-div_right (two_pow-pos j) a b
                ∙ ap (λ x. a + x) (div-eq_of_lt h)
                ∙ omega arith))
        (bits_of-join n j a b h)

-- The bits of a number, cut in two.
pub bits_of-split : (n j x : ℕ) → bits_of (n + j) x ≡ bits_of n (x / 2 ^ j) ++ bits_of j x
bits_of-split n j x =
    let whole = div-add-mod' x (2 ^ j) in
    ap (bits_of (n + j)) (sym whole)
    ∙ bits_of-join n j (x / 2 ^ j) (x % 2 ^ j) (mod-lt x (two_pow-pos j))
    ∙ ap (λ l. bits_of n (x / 2 ^ j) ++ l)
        (sym (bits_of-high j (x / 2 ^ j) (x % 2 ^ j)) ∙ ap (bits_of j) whole)

-- The bits within a width are kept when the number is cut to that width.
pub bits_of-mod : (j k x : ℕ) → j ≤ k → bits_of j (x % 2 ^ k) ≡ bits_of j x
bits_of-mod j k x h =
    let whole = div-add-mod' x (2 ^ k) in
    let q = x / 2 ^ k in
    let wider : k ≡ k - j + j = omega arith in
    let split : q * 2 ^ k ≡ q * 2 ^ (k - j) * 2 ^ j =
      ap (λ p. q * p) (ap (λ i. 2 ^ i) wider ∙ pow-add (k - j) j)
      ∙ sym (mul_assoc q (2 ^ (k - j)) (2 ^ j)) in
    sym (bits_of-high j (q * 2 ^ (k - j)) (x % 2 ^ k))
    ∙ ap (λ y. bits_of j (y + x % 2 ^ k)) (sym split)
    ∙ ap (bits_of j) whole

module _ {ℓ} {A : Type ℓ} where
  pub take-append_left : (xs ys : List A) → take (length xs) (xs ++ ys) ≡ xs
  take-append_left [] ys = refl
  take-append_left (x ∷ xs) ys = ap (λ l. x ∷ l) (take-append_left xs ys)

  -- Two lists that begin with parts of the same length are the same only if these parts are.
  pub append-front :
      (xs xs' ys ys' : List A) → length xs ≡ length xs' → xs ++ ys ≡ xs' ++ ys' → xs ≡ xs'
  append-front xs xs' ys ys' h e =
      sym (take-append_left xs ys)
      ∙ ap (take (length xs)) e
      ∙ ap (λ n. take n (xs' ++ ys')) h
      ∙ take-append_left xs' ys'
