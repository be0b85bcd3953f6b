-- ===== src/BitText/Nibbles.antt =====
-- `hexstr2binstr` writes four binary digits for each hexadecimal digit.
use native.Mathlib.Nat.{pow-suc}
use mathlib.Core.List.{flat_map}
use mathlib.Core.Path.{subst}
use gr_ccsds.Prelude.{
  ℕ, suc, ◌+◌, ◌*◌, ◌/◌, ◌%◌, ◌^◌, ◌≤◌, ◌<◌, ◌≡◌, ◌≢◌, refl, sym, ap, ◌∙◌, false, none, some, [],
  ◌∷◌, ◌++◌, append_assoc, append-nil, Text, ◌⊎◌, rstrip, rstrip_by, lstrip_by, is_space, ◌&&◌,
  ◌||◌, All, ok, length, arith, ◌==◌,
}
use gr_ccsds.Prelude.Int.{pos}
use gr_ccsds.BitText.Defs.{
  hex_digit, hex_value, hex_digits, unsigned, signed, hexstr2int, hexstr2binstr,
}
use gr_ccsds.BitText.Digits.{fixed, length-fixed, int2binstr-fixed}

-- The hexadecimal digits, and what each of them is worth.
abbrev pub IsHex : ℕ → Type 0
IsHex c = (d : ℕ) × (hex_digit c ≡ some d)

abbrev pub worth : ℕ → ℕ
worth c = elim (hex_digit c) [ none ↦ 0 | some d ↦ d ]

-- The value of hexadecimal digits by Horner's rule.
abbrev pub horner : ℕ → Text → ℕ
horner n [] = n
horner n (c ∷ s) = horner (n * 16 + worth c) s

worth-lt : (c : ℕ) → worth c < 16
unfolding hex_digit
worth-lt c = ground arith

hex_digit-worth : (c : ℕ) → IsHex c → hex_digit c ≡ some (worth c)
hex_digit-worth c (d, e) = ground arith

hex_value_step :
    (n c d : ℕ) (s : Text) → hex_digit c ≡ some d → hex_value n (c ∷ s) ≡ hex_value (n * 16 + d) s
unfolding hex_value
hex_value_step n c d s e = rw (e, hex_value) refl

hex_value-horner : (s : Text) (n : ℕ) → All IsHex s → hex_value n s ≡ some (horner n s)
unfolding hex_value
hex_value-horner [] n h = refl
hex_value-horner (c ∷ s) n h =
    hex_value_step n c (worth c) s (hex_digit-worth c h.0)
    ∙ hex_value-horner s (n * 16 + worth c) h.1

-- The prefix and the signs are no hexadecimal digits, and neither are spaces.
hex_bounds :
    (c : ℕ) → IsHex c → (48 ≤ c) × (c < 103) × ((c < 58) ⊎ (64 < c)) × ((c < 71) ⊎ (96 < c))
unfolding hex_digit
hex_bounds c (d, e) = ground arith

lstrip-hex : (c : ℕ) (s : Text) → IsHex c → lstrip_by is_space (c ∷ s) ≡ c ∷ s
unfolding lstrip_by
lstrip-hex c s h = ground (arith, hex_bounds c h)

rstrip-hex : (s : Text) → All IsHex s → rstrip s ≡ s
unfolding rstrip_by
rstrip-hex [] h = refl
rstrip-hex (c ∷ []) h = ground (arith, hex_bounds c h.0)
rstrip-hex (c ∷ d ∷ s) h = rw (rstrip-hex (d ∷ s) h.1) refl

unsigned-hex : (c : ℕ) (s : Text) → All IsHex (c ∷ s) → unsigned (c ∷ s) ≡ some (horner 0 (c ∷ s))
unfolding unsigned hex_digits
unsigned-hex c [] h = hex_value-horner (c ∷ []) 0 h
unsigned-hex c (d ∷ s) h =
    let no_prefix : ((c == b'0') && ((d == b'x') || (d == b'X'))) ≡ false =
      ground (arith, hex_bounds d h.1.0) in
    rw no_prefix (hex_value-horner (c ∷ d ∷ s) 0 h)

signed-hex : (c : ℕ) (s : Text) → All IsHex (c ∷ s) → signed (c ∷ s) ≡ some (pos (horner 0 (c ∷ s)))
unfolding signed
signed-hex c s h =
    let no_minus : (c == b'-') ≡ false = ground (arith, hex_bounds c h.0) in
    let no_plus : (c == b'+') ≡ false = ground (arith, hex_bounds c h.0) in
    rw (no_minus, no_plus) (rw (unsigned-hex c s h) refl)

-- `hexstr2int` of hexadecimal digits is their value.
pub hexstr2int-horner : (s : Text) → s ≢ [] → All IsHex s → hexstr2int s ≡ ok (pos (horner 0 s))
unfolding hexstr2int
hexstr2int-horner [] ne h = absurd (ne refl)
hexstr2int-horner (c ∷ s) ne h =
    rw (rstrip-hex (c ∷ s) h) (rw (lstrip-hex c s h.0) (rw (signed-hex c s h) refl))

abbrev wider : ℕ → ℕ
wider k = suc (suc (suc (suc k)))

wider_pow : (k : ℕ) → 2 ^ wider k ≡ 16 * 2 ^ k
wider_pow k =
    omega (
      arith,
      pow-suc 2 k,
      pow-suc 2 (suc k),
      pow-suc 2 (suc (suc k)),
      pow-suc 2 (suc (suc (suc k))),
    )

one_digit_wider : (k l : ℕ) → k + suc l * 4 ≡ wider k + l * 4
one_digit_wider k l = omega arith

-- The value of more digits behind a number of k bits fits into the k bits and four for each digit.
horner-lt : (s : Text) (n k : ℕ) → n < 2 ^ k → horner n s < 2 ^ (k + length s * 4)
horner-lt [] n k h = let e : k + 0 ≡ k = omega arith in rw e h
horner-lt (c ∷ s) n k h =
    rw (one_digit_wider k (length s))
      (horner-lt s (n * 16 + worth c) (wider k) (omega (arith, wider_pow k, worth-lt c)))

-- The four binary digits of a hexadecimal digit.
abbrev pub nibble : ℕ → Text
nibble c = fixed 4 (worth c)

fixed-add : (k n d : ℕ) → d < 16 → fixed (wider k) (n * 16 + d) ≡ fixed k n ++ fixed 4 d
unfolding fixed
fixed-add k n d h =
    let q : (n * 16 + d) / 2 / 2 / 2 / 2 ≡ n = omega arith in
    let d₃ : (n * 16 + d) / 2 / 2 / 2 % 2 ≡ d / 2 / 2 / 2 % 2 = omega arith in
    let d₂ : (n * 16 + d) / 2 / 2 % 2 ≡ d / 2 / 2 % 2 = omega arith in
    let d₁ : (n * 16 + d) / 2 % 2 ≡ d / 2 % 2 = omega arith in
    let d₀ : (n * 16 + d) % 2 ≡ d % 2 = omega arith in rw (q, d₃, d₂, d₁, d₀) (simp append_assoc)

fixed-horner :
    (s : Text) (n k : ℕ) → fixed (k + length s * 4) (horner n s) ≡ fixed k n ++ flat_map nibble s
unfolding flat_map
fixed-horner [] n k = let e : k + 0 ≡ k = omega arith in rw e (sym (append-nil (fixed k n)))
fixed-horner (c ∷ s) n k = rw (one_digit_wider k (length s)) (
    fixed-horner s (n * 16 + worth c) (wider k)
    ∙ ap (λ t. t ++ flat_map nibble s) (fixed-add k n (worth c) (worth-lt c))
    ∙ append_assoc (fixed k n) (nibble c) (flat_map nibble s))

zero_more : (n : ℕ) → 0 + n ≡ n
zero_more n = omega arith

-- A text of hexadecimal digits, in either case, becomes the four binary digits of each of them in
-- turn; so it has four times its length, and leading zeros are kept.
pub hexstr2binstr-nibbles :
    (s : Text)
    → s ≢ []
    → All IsHex s
    → (hexstr2binstr s none ≡ ok (flat_map nibble s)) × (length (flat_map nibble s) ≡ length s * 4)
unfolding hexstr2binstr
hexstr2binstr-nibbles [] ne h = absurd (ne refl)
hexstr2binstr-nibbles (c ∷ s) ne h =
    let whole = fixed-horner (c ∷ s) 0 0 in
    (
      rw (hexstr2int-horner (c ∷ s) ne h) (
          ap ok (
            int2binstr-fixed (horner 0 (c ∷ s)) (length (c ∷ s) * 4) (omega arith) (
              subst (λ k. horner 0 (c ∷ s) < 2 ^ k) (zero_more _)
                (horner-lt (c ∷ s) 0 0 (omega arith)))
            ∙ ap (λ k. fixed k (horner 0 (c ∷ s))) (sym (zero_more _))
            ∙ whole
            ∙ (unfold fixed in refl))),
      sym (ap length (whole ∙ (unfold fixed in refl)))
          ∙ length-fixed _ (horner 0 (c ∷ s))
          ∙ zero_more _,
    )
