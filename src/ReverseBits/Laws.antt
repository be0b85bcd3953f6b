-- ===== src/ReverseBits/Laws.antt =====
-- What the block does to a message: the bytes at the positions are turned around, once each, and the
-- others are kept.
use mathlib.Core.Path.{ap₂}
use gr_ccsds.Prelude.{
  ◌*◌, ◌/◌, ◌%◌, ℕ, zero, suc, ◌+◌, ◌≤◌, ◌<◌, ◌≡◌, refl, sym, ap, ◌∙◌, Option-cases, Bool, true,
  false, ◌&&◌, ◌||◌, &&-eq-true, Bool-cases, inl, inr, List, [], ◌∷◌, Text, All, IsByte, length,
  get_elem?, leb, leb→le, ◌==◌, ==_iff, if◌then◌else◌, not, arith,
}
use gr_ccsds.Prelude.Below.{all_below, all_below_sound}
use gr_ccsds.ReverseBits.Defs.{reverse_rounds, reverse_bits, reverse_byte, reverse_positions}

table :
    all_below 256 (λ b. (reverse_bits (reverse_bits b) == b) && not (leb 256 (reverse_bits b)))
    ≡ true
unfolding all_below reverse_rounds
table = refl

-- Turning a byte around twice gives it back, and once gives a byte.
pub reverse_bits_twice :
    (b : ℕ) → IsByte b → (reverse_bits (reverse_bits b) ≡ b) × IsByte (reverse_bits b)
reverse_bits_twice b h =
    let (back, small) = &&-eq-true _ _ (all_below_sound 256 _ b table h) in
    ((==_iff (reverse_bits (reverse_bits b)) b).0 back, ground (arith, small))

-- The byte with the bits of `b` in the opposite order: bit 0 at the place of bit 7, and so on.
unfoldable pub mirror_byte : ℕ → ℕ
mirror_byte b =
    b % 2 * 128
    + b / 2 % 2 * 64
    + b / 4 % 2 * 32
    + b / 8 % 2 * 16
    + b / 16 % 2 * 8
    + b / 32 % 2 * 4
    + b / 64 % 2 * 2
    + b / 128 % 2

reverse_bits-mirror_byte : (b : ℕ) → reverse_bits b ≡ mirror_byte b
unfolding reverse_rounds mirror_byte
reverse_bits-mirror_byte b = omega arith

-- Position `i` is one of the positions.
unfoldable pub chosen : List ℕ → ℕ → Bool
chosen [] i = false
chosen (p ∷ ps) i = (i == p) || chosen ps i

-- The bytes of a message from position `i` on, those turned around for which the test holds.
unfoldable pub mirrored : (ℕ → Bool) → ℕ → Text → Text
mirrored f i [] = []
mirrored f i (b ∷ s) = (if f i then mirror_byte b else b) ∷ mirrored f (i + 1) s

mirrored-ext :
    (f g : ℕ → Bool) (i : ℕ) (s : Text)
    → ((j : ℕ) → i ≤ j → j < i + length s → f j ≡ g j)
    → mirrored f i s ≡ mirrored g i s
unfolding mirrored
mirrored-ext f g i [] h = refl
mirrored-ext f g i (b ∷ s) h =
    ap₂ ◌∷◌ (ap (λ t. if t then mirror_byte b else b) (h i (omega arith) (omega arith)))
      (mirrored-ext f g (i + 1) s (λ j le lt. h j (omega arith) (omega arith)))

pub length-mirrored : (f : ℕ → Bool) (i : ℕ) (s : Text) → length (mirrored f i s) ≡ length s
unfolding mirrored
length-mirrored f i [] = refl
length-mirrored f i (b ∷ s) = ap (λ n. suc n) (length-mirrored f (i + 1) s)

reverse_byte-cons :
    (b c p : ℕ) (s t : Text) → reverse_byte (b ∷ s) (suc p) (c ∷ t) ≡ c ∷ reverse_byte s p t
reverse_byte-cons b c p s t = elim (Option-cases (get_elem? s p)) [
  | inl e ↦ rw (reverse_byte, e) refl
  | inr (v, e) ↦ rw (reverse_byte, e) refl
]

-- To turn around the byte at one more position.
reverse_byte-mirrored :
    (f : ℕ → Bool) (i p : ℕ) (s : Text)
    → reverse_byte s p (mirrored f i s) ≡ mirrored (λ j. f j || (j == i + p)) i s
unfolding mirrored
reverse_byte-mirrored f i p [] = refl
reverse_byte-mirrored f i zero (b ∷ s) =
    ap₂ ◌∷◌ (ground (arith, reverse_bits-mirror_byte b))
      (mirrored-ext f (λ j. f j || (j == i + 0)) (i + 1) s (λ j le lt. ground arith))
reverse_byte-mirrored f i (suc p) (b ∷ s) =
    reverse_byte-cons b (if f i then mirror_byte b else b) p s (mirrored f (i + 1) s)
    ∙ ap₂ ◌∷◌ (ground arith) (
        reverse_byte-mirrored f (i + 1) p s
        ∙ mirrored-ext (λ j. f j || (j == i + 1 + p)) (λ j. f j || (j == i + suc p)) (i + 1) s
            (λ j le lt. ground arith))

missing :
    (f : ℕ → Bool) (p : ℕ) (s : Text)
    → length s ≤ p
    → mirrored f 0 s ≡ mirrored (λ j. f j || (j == p)) 0 s
missing f p s h = mirrored-ext f (λ j. f j || (j == p)) 0 s (λ j le lt. ground arith)

reverse_positions_from :
    (f : ℕ → Bool) (ps : List ℕ) (s : Text)
    → reverse_positions (length s) s ps (mirrored f 0 s) ≡ mirrored (λ j. f j || chosen ps j) 0 s
unfolding reverse_positions chosen
reverse_positions_from f [] s = mirrored-ext f (λ j. f j || false) 0 s (λ j le lt. ground arith)
reverse_positions_from f (p ∷ ps) s =
    let g = λ (j : ℕ). f j || (j == p) in
    let step : (if leb (length s) p then mirrored f 0 s else reverse_byte s p (mirrored f 0 s))
        ≡ mirrored g 0 s =
      elim (Bool-cases (leb (length s) p)) [
        | inl e ↦ rw e (missing f p s (leb→le (length s) p e))
        | inr e ↦ rw e (
            reverse_byte-mirrored f 0 p s
            ∙ mirrored-ext (λ j. f j || (j == 0 + p)) g 0 s (λ j le lt. ground arith))
      ] in
    ap (reverse_positions (length s) s ps) step
    ∙ reverse_positions_from g ps s
    ∙ mirrored-ext (λ j. g j || chosen ps j) (λ j. f j || ((j == p) || chosen ps j)) 0 s
        (λ j le lt. ground arith)

nothing_chosen : (i : ℕ) (s : Text) → mirrored (λ j. false) i s ≡ s
unfolding mirrored
nothing_chosen i [] = refl
nothing_chosen i (b ∷ s) = ap (λ t. b ∷ t) (nothing_chosen (i + 1) s)

-- The loop over the positions turns around the bytes at those positions and keeps the others, whatever
-- the order of the positions, however often each is given, and with positions beyond the end of the
-- message.
pub reverse_positions-mirrored :
    (ps : List ℕ) (s : Text) → reverse_positions (length s) s ps s ≡ mirrored (chosen ps) 0 s
reverse_positions-mirrored ps s =
    ap (reverse_positions (length s) s ps) (sym (nothing_chosen 0 s))
    ∙ reverse_positions_from (λ j. false) ps s

mirrored_byte :
    (t : Bool) (b : ℕ)
    → IsByte b
    → (if t then mirror_byte (if t then mirror_byte b else b) else (if t then mirror_byte b else b))
      ≡ b
mirrored_byte true b h =
    ap mirror_byte (sym (reverse_bits-mirror_byte b))
    ∙ sym (reverse_bits-mirror_byte (reverse_bits b))
    ∙ (reverse_bits_twice b h).0
mirrored_byte false b h = refl

mirrored_twice :
    (f : ℕ → Bool) (i : ℕ) (s : Text) → All IsByte s → mirrored f i (mirrored f i s) ≡ s
unfolding mirrored
mirrored_twice f i [] h = refl
mirrored_twice f i (b ∷ s) (hb, h) =
    ap₂ ◌∷◌ (mirrored_byte (f i) b hb) (mirrored_twice f (i + 1) s h)

-- A message of bytes that goes through two blocks with the same positions comes out as it went in.
pub reverse_positions_twice :
    (ps : List ℕ) (s : Text)
    → All IsByte s
    → reverse_positions
        (length s)
        (reverse_positions (length s) s ps s)
        ps
        (reverse_positions (length s) s ps s)
      ≡ s
reverse_positions_twice ps s h =
    let once = mirrored (chosen ps) 0 s in
    let same : length s ≡ length once = sym (length-mirrored (chosen ps) 0 s) in
    rw (reverse_positions-mirrored ps s) (
      ap (λ n. reverse_positions n once ps once) same
      ∙ reverse_positions-mirrored ps once
      ∙ mirrored_twice (chosen ps) 0 s h)
