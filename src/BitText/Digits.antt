-- ===== src/BitText/Digits.antt =====
-- Padding the binary digits of a number to a width gives its digits of that width.
use native.Mathlib.Nat.{pow-suc}
use gr_ccsds.Prelude.{
  ℕ, zero, suc, ◌+◌, ◌-◌, ◌/◌, ◌%◌, ◌^◌, ◌≤◌, ◌<◌, ◌≡◌, refl, sym, ap, ◌∙◌, inl, inr, true, false,
  [], ◌∷◌, ◌++◌, append_assoc, append-nil, Text, length, length-append, replicate, arith, ◌==◌,
  Bool-cases,
}
use gr_ccsds.Prelude.Int.{pos}
use gr_ccsds.BitText.Defs.{bits, binary, bin_tail, pad, zfill, int2binstr}

-- The last `k` binary digits of `n`.
unfoldable pub fixed : ℕ → ℕ → Text
fixed zero n = []
fixed (suc k) n = fixed k (n / 2) ++ (b'0' + n % 2) ∷ []

pub fixed-suc : (k n : ℕ) → fixed (suc k) n ≡ fixed k (n / 2) ++ (b'0' + n % 2) ∷ []
unfolding fixed
fixed-suc k n = refl

bits_stop : (f n : ℕ) (acc : Text) → (n == 0) ≡ true → bits f n acc ≡ acc
unfolding bits
bits_stop zero n acc e = refl
bits_stop (suc f) n acc e = rw (e, bits) refl

bits_go :
    (f n : ℕ) (acc : Text)
    → (n == 0) ≡ false
    → bits (suc f) n acc ≡ bits f (n / 2) ((b'0' + n % 2) ∷ acc)
unfolding bits
bits_go f n acc e = rw (e, bits) refl

bits-append : (f n : ℕ) (acc : Text) → bits f n acc ≡ bits f n [] ++ acc
bits-append zero n acc = unfold bits in refl
bits-append (suc f) n acc = elim (Bool-cases (n == 0)) [
  | inl e ↦ bits_stop (suc f) n acc e ∙ ap (λ s. s ++ acc) (sym (bits_stop (suc f) n [] e))
  | inr e ↦
      bits_go f n acc e
      ∙ bits-append f (n / 2) ((b'0' + n % 2) ∷ acc)
      ∙ sym (append_assoc (bits f (n / 2) []) ((b'0' + n % 2) ∷ []) acc)
      ∙ ap (λ s. s ++ acc) (sym (bits_go f n [] e ∙ bits-append f (n / 2) ((b'0' + n % 2) ∷ [])))
]

bits-fuel : (f g n : ℕ) → n ≤ f → n ≤ g → bits f n [] ≡ bits g n []
bits-fuel zero g n p q = bits_stop zero n [] (ground arith) ∙ sym (bits_stop g n [] (ground arith))
bits-fuel (suc f) zero n p q =
    bits_stop (suc f) n [] (ground arith) ∙ sym (bits_stop zero n [] (ground arith))
bits-fuel (suc f) (suc g) n p q = elim (Bool-cases (n == 0)) [
  | inl e ↦ bits_stop (suc f) n [] e ∙ sym (bits_stop (suc g) n [] e)
  | inr e ↦
      bits_go f n [] e
      ∙ bits-append f (n / 2) ((b'0' + n % 2) ∷ [])
      ∙ ap (λ s. s ++ (b'0' + n % 2) ∷ []) (bits-fuel f g (n / 2) (ground arith) (ground arith))
      ∙ sym (bits-append g (n / 2) ((b'0' + n % 2) ∷ []))
      ∙ sym (bits_go g n [] e)
]

-- The digits of a positive number are those of its half, and the last one.
bits_last : (n : ℕ) → 0 < n → bits n n [] ≡ bits (n / 2) (n / 2) [] ++ (b'0' + n % 2) ∷ []
bits_last zero h = absurd (omega arith)
bits_last (suc n) h =
    bits_go n (suc n) [] (ground arith)
    ∙ bits-append n (suc n / 2) ((b'0' + suc n % 2) ∷ [])
    ∙ ap (λ s. s ++ (b'0' + suc n % 2) ∷ [])
        (bits-fuel n (suc n / 2) (suc n / 2) (omega arith) (omega arith))

bits_zero : bits 0 0 [] ≡ []
unfolding bits
bits_zero = refl

replicate_last : (k c : ℕ) → replicate (suc k) c ≡ replicate k c ++ c ∷ []
replicate_last zero c = refl
replicate_last (suc k) c = ap (λ s. c ∷ s) (replicate_last k c)

half_lt : (n k : ℕ) → n < 2 ^ suc k → n / 2 < 2 ^ k
half_lt n k h = omega (arith, pow-suc 2 k)

pad_last : (k c : ℕ) (s : Text) → pad (suc k) (s ++ c ∷ []) ≡ pad k s ++ c ∷ []
pad_last k c s =
    let e : suc k - length (s ++ c ∷ []) ≡ k - length s = omega (arith, length-append s (c ∷ [])) in
    rw e (sym (append_assoc (replicate (k - length s) b'0') s (c ∷ [])))

below_one : (n : ℕ) → n < 2 ^ 0 → n ≡ 0
below_one n h = omega arith

pad-nil : (k : ℕ) → pad k [] ≡ replicate k b'0'
pad-nil k = let e : k - 0 ≡ k = omega arith in rw e (append-nil (replicate k b'0'))

fixed-zero : (k : ℕ) → fixed k 0 ≡ replicate k b'0'
unfolding fixed
fixed-zero zero = refl
fixed-zero (suc k) = ap (λ s. s ++ b'0' ∷ []) (fixed-zero k) ∙ sym (replicate_last k b'0')

pad-bits : (k n : ℕ) → n < 2 ^ k → pad k (bits n n []) ≡ fixed k n
pad-bits k zero h = ap (pad k) bits_zero ∙ pad-nil k ∙ sym (fixed-zero k)
pad-bits zero (suc n) h = absurd (omega arith)
pad-bits (suc k) (suc n) h =
    ap (pad (suc k)) (bits_last (suc n) (omega arith))
    ∙ pad_last k (b'0' + suc n % 2) (bits (suc n / 2) (suc n / 2) [])
    ∙ ap (λ s. s ++ (b'0' + suc n % 2) ∷ []) (pad-bits k (suc n / 2) (half_lt (suc n) k h))
    ∙ sym (fixed-suc k (suc n))

-- A number that fits into a positive width is written with exactly that many digits.
binary-pad : (k n : ℕ) → 0 < k → n < 2 ^ k → pad k (binary n) ≡ fixed k n
unfolding binary
binary-pad zero n p h = absurd (omega arith)
binary-pad (suc k) zero p h =
    let e : suc k - 1 ≡ k = omega arith in
    rw e (sym (replicate_last k b'0') ∙ sym (fixed-zero (suc k)))
binary-pad (suc k) (suc n) p h =
    let e : (suc n == 0) ≡ false = ground arith in rw e (pad-bits (suc k) (suc n) h)

-- No binary text begins with a sign, so `zfill` pads at the front.
bits-head :
    (f n : ℕ) (acc : Text) (w : ℕ)
    → zfill w acc ≡ pad w acc
    → zfill w (bits f n acc) ≡ pad w (bits f n acc)
unfolding bits zfill
bits-head zero n acc w h = h
bits-head (suc f) n acc w h = elim (Bool-cases (n == 0)) [
  | inl e ↦ rw (e, bits) h
  | inr e ↦ rw (e, bits) (bits-head f (n / 2) ((b'0' + n % 2) ∷ acc) w (ground arith))
]

zfill-binary : (w n : ℕ) → zfill w (binary n) ≡ pad w (binary n)
unfolding binary zfill
zfill-binary w n = elim (Bool-cases (n == 0)) [
  | inl e ↦ rw e refl
  | inr e ↦ rw e (bits-head n n [] w refl)
]

-- `int2binstr` of a number that fits.
pub int2binstr-fixed : (n k : ℕ) → 0 < k → n < 2 ^ k → int2binstr (pos n) k ≡ fixed k n
unfolding int2binstr bin_tail
int2binstr-fixed n k p h = zfill-binary k n ∙ binary-pad k n p h

pub length-fixed : (k n : ℕ) → length (fixed k n) ≡ k
unfolding fixed
length-fixed zero n = refl
length-fixed (suc k) n =
    omega (arith, length-append (fixed k (n / 2)) ((b'0' + n % 2) ∷ []), length-fixed k (n / 2))
