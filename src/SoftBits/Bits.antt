-- ===== src/SoftBits/Bits.antt =====
-- What the decisions give for soft bits that were made from bytes, and how the two blocks that decide
-- compare.
use mathlib.Core.Path.{ap₂}
use native.Mathlib.Nat.{pow-suc}
use gr_ccsds.Prelude.{
  length-drop, ℕ, zero, suc, ◌+◌, ◌*◌, ◌/◌, ◌%◌, ◌^◌, ◌≤◌, ◌<◌, ◌≡◌, refl, ap, ◌∙◌, false, List, [],
  ◌∷◌, ◌++◌, Text, All, IsByte, length, length-append, drop, ltb, ◌==◌, arith,
}
use gr_ccsds.Prelude.Int.{ℤ, pos, negsuc, ◌-ℤ◌, ◌≤ℤ◌}
use gr_ccsds.Pdu.Message.{Header, floats, blob, pdu}
use gr_ccsds.SoftBits.Defs.{
  hard_decision, create_from_bit, byte_softbits, to_softbits, hard_byte, hard_bytes,
  convert_message, process_message, shift_in, shifted_bytes,
}

hard_decision-create :
    (magnitude : ℤ) (x : ℕ)
    → pos 1 ≤ℤ magnitude
    → x < 2
    → hard_decision (create_from_bit magnitude (x == 1)) ≡ x
unfolding ◌-ℤ◌
hard_decision-create (pos m) zero h lt = ground arith
hard_decision-create (pos m) (suc zero) h lt = refl
hard_decision-create (pos m) (suc (suc x)) h lt = absurd (omega arith)
hard_decision-create (negsuc m) x h lt = absurd (omega arith)

hard_byte-byte_softbits :
    (magnitude : ℤ) (b : ℕ) (rest : List ℤ)
    → pos 1 ≤ℤ magnitude
    → IsByte b
    → hard_byte 8 (byte_softbits 8 magnitude b ++ rest) ≡ b
unfolding hard_byte byte_softbits
hard_byte-byte_softbits magnitude b rest h lt =
    let bit = λ (k : ℕ). hard_decision-create magnitude (b / 2 ^ k % 2) h (omega arith) in
    rw (bit 7, bit 6, bit 5, bit 4, bit 3, bit 2, bit 1, bit 0) (omega arith)

length-byte_softbits : (n : ℕ) (magnitude : ℤ) (b : ℕ) → length (byte_softbits n magnitude b) ≡ n
unfolding byte_softbits
length-byte_softbits zero magnitude b = refl
length-byte_softbits (suc n) magnitude b = ap suc (length-byte_softbits n magnitude b)

pub length-to_softbits :
    (magnitude : ℤ) (s : Text) → length (to_softbits magnitude s) ≡ 8 * length s
unfolding to_softbits
length-to_softbits magnitude [] = refl
length-to_softbits magnitude (b ∷ s) = omega (
  arith,
  length-append (byte_softbits 8 magnitude b) (to_softbits magnitude s),
  length-byte_softbits 8 magnitude b,
  length-to_softbits magnitude s,
)

drop-byte_softbits :
    (magnitude : ℤ) (b : ℕ) (rest : List ℤ) → drop 8 (byte_softbits 8 magnitude b ++ rest) ≡ rest
unfolding byte_softbits
drop-byte_softbits magnitude b rest = refl

hard_bytes-to_softbits :
    (magnitude : ℤ) (s : Text)
    → pos 1 ≤ℤ magnitude
    → All IsByte s
    → hard_bytes (length s) (to_softbits magnitude s) ≡ s
unfolding hard_bytes to_softbits
hard_bytes-to_softbits magnitude [] h bytes = refl
hard_bytes-to_softbits magnitude (b ∷ s) h (lt, bytes) =
    ap₂ ◌∷◌ (hard_byte-byte_softbits magnitude b (to_softbits magnitude s) h lt) (
      ap (hard_bytes (length s)) (drop-byte_softbits magnitude b (to_softbits magnitude s))
      ∙ hard_bytes-to_softbits magnitude s h bytes)

-- Bytes that become soft bits of any positive magnitude, and are posted in a message to a converter that
-- is not stopped, come back as they were, with the header of the message.
pub process_message-to_softbits :
    (magnitude : ℤ) (s : Text) (h : Header)
    → pos 1 ≤ℤ magnitude
    → All IsByte s
    → process_message (record { stopped = false }) (pdu h (floats (to_softbits magnitude s)))
      ≡ (record { stopped = false }, pdu h (blob s) ∷ [])
unfolding process_message convert_message
process_message-to_softbits magnitude s h positive bytes =
    let count = length-to_softbits magnitude s in
    let whole : ltb 0 (length (to_softbits magnitude s) % 8) ≡ false =
      rw count (ground (arith, divisible (length s))) in
    let number : length (to_softbits magnitude s) / 8 ≡ length s = rw count (omega arith) in
    rw (whole, number, hard_bytes-to_softbits magnitude s positive bytes) refl
  where
    divisible : (n : ℕ) → 8 * n % 8 ≡ 0
    divisible n = omega arith

pow-positive : (n : ℕ) → 1 ≤ 2 ^ n
pow-positive zero = omega arith
pow-positive (suc n) = omega (arith, pow-suc 2 n, pow-positive n)

-- A shifted byte does not overflow while its rounds last.
shifted_fits : (n byte : ℕ) → byte * 2 ^ suc n + 2 ^ suc n ≤ 2 ^ 8 → byte * 2 < 2 ^ 8
shifted_fits n byte room =
    let double : byte * 2 ^ suc n ≡ byte * 2 * 2 ^ n = rw (pow-suc 2 n) (omega arith) in
    let grown : byte * 2 ≤ byte * 2 * 2 ^ n = grind (arith, pow-positive n) in
    omega (arith, pow-positive (suc n))

-- Both inner loops make the same number, whatever is in front of it, as long as there is room.
shift_in-hard_byte :
    (n byte : ℕ) (bits : List ℤ)
    → n ≤ length bits
    → byte * 2 ^ n + 2 ^ n ≤ 2 ^ 8
    → shift_in n byte bits ≡ byte * 2 ^ n + hard_byte n bits
unfolding shift_in hard_byte
shift_in-hard_byte zero byte bits enough room = omega arith
shift_in-hard_byte (suc n) byte [] enough room = absurd (omega arith)
shift_in-hard_byte (suc n) byte (pos k ∷ bits) enough room =
    let fits : byte * 2 % 2 ^ 8 ≡ byte * 2 = omega (arith, shifted_fits n byte room) in
    let double : byte * 2 ^ suc n ≡ byte * 2 * 2 ^ n = rw (pow-suc 2 n) (omega arith) in
    rw fits (
      shift_in-hard_byte n (byte * 2 + 1) bits (omega arith) (omega (arith, pow-suc 2 n, double))
      ∙ omega (arith, double))
shift_in-hard_byte (suc n) byte (negsuc k ∷ bits) enough room =
    let fits : byte * 2 % 2 ^ 8 ≡ byte * 2 = omega (arith, shifted_fits n byte room) in
    let double : byte * 2 ^ suc n ≡ byte * 2 * 2 ^ n = rw (pow-suc 2 n) (omega arith) in
    rw fits (
      shift_in-hard_byte n (byte * 2 + 0) bits (omega arith) (omega (arith, pow-suc 2 n, double))
      ∙ omega (arith, double))

-- On soft bits for whole bytes the two blocks that decide them give the same bytes.
pub shifted_bytes-hard_bytes :
    (n : ℕ) (bits : List ℤ) → length bits ≡ 8 * n → shifted_bytes n bits ≡ hard_bytes n bits
unfolding shifted_bytes hard_bytes
shifted_bytes-hard_bytes zero bits whole = refl
shifted_bytes-hard_bytes (suc n) bits whole =
    ap₂ ◌∷◌ (shift_in-hard_byte 8 0 bits (omega arith) (omega arith) ∙ omega arith)
      (shifted_bytes-hard_bytes n (drop 8 bits) (omega (arith, length-drop 8 bits)))
