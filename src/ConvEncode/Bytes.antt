-- ===== src/ConvEncode/Bytes.antt =====
-- How general_work cuts the encoded bits into bytes.
use Prim.Native.Nat.{bit_or}
use mathlib.Core.Path.{ap₂}
use native.Mathlib.Nat.{
  mul-div_cancel, mul_assoc, div-one, div-add-mod', div-lt_iff_lt-mul, mod-lt, mod-mod_of_dvd,
  mul-mod_left, dvd-mul_left,
}
use gr_ccsds.Prelude.{
  ℕ, zero, suc, ◌+◌, ◌-◌, ◌*◌, ◌/◌, ◌%◌, ◌^◌, ◌≤◌, ◌<◌, ◌≡◌, refl, sym, ap, subst, ◌∙◌, ltb-cases,
  inl, inr, ◌⊎◌, List, [], ◌++◌, append_assoc, Text, length, arith,
}
use gr_ccsds.Prelude.Merged.{bit_or-add_low}
use gr_ccsds.Prelude.BitLists.{
  bits_of, length-bits_of, two_pow-pos, pow-add, bits_of-join, bits_of-split, bits_of-mod, bits_in,
  append-front,
}
use gr_ccsds.ConvEncode.Defs.{new_bits, Left, put_bytes}

-- The bits in the buffer.
abbrev pub held : ℕ → ℕ → List ℕ
held buffer count = bits_of count (buffer / 2 ^ (16 - count))

pub held-zero : (buffer : ℕ) → held buffer 0 ≡ []
unfolding bits_of
held-zero buffer = refl

-- A buffer with so many bits at its upper end, and zeros behind them.
pub record IsFilled (buffer count : ℕ) : Type 0 where
  pub value : ℕ
  pub aligned : buffer ≡ value * 2 ^ (16 - count)
  pub small : value < 2 ^ count

pub held-IsFilled :
    (buffer count : ℕ) (h : IsFilled buffer count) → held buffer count ≡ bits_of count h.value
held-IsFilled buffer count h =
    ap (bits_of count)
      (ap (λ b. b / 2 ^ (16 - count)) h.aligned ∙ mul-div_cancel h.value (two_pow-pos (16 - count)))

-- Bits that are shifted to the upper end.
abbrev pub upper : ℕ → ℕ → ℕ
upper bits num = bits * 2 ^ (16 - num) % 2 ^ 16

bits_of-upper :
    (bits num : ℕ)
    → num ≤ 16
    → bits_of 16 (upper bits num) ≡ bits_of num bits ++ bits_of (16 - num) 0
bits_of-upper bits num h =
    let whole : 16 ≡ num + (16 - num) = omega arith in
    let nothing_more : bits * 2 ^ (16 - num) ≡ bits * 2 ^ (16 - num) + 0 = omega arith in
    bits_of-mod 16 16 (bits * 2 ^ (16 - num)) (omega arith)
    ∙ ap (λ n. bits_of n (bits * 2 ^ (16 - num))) whole
    ∙ ap (bits_of (num + (16 - num))) nothing_more
    ∙ bits_of-join num (16 - num) bits 0 (two_pow-pos (16 - num))

upper-lt : (bits num j k : ℕ) → j + k ≡ 16 → upper bits num / 2 ^ k < 2 ^ j
upper-lt bits num j k h = (div-lt_iff_lt-mul (two_pow-pos k)).1 (
    subst (λ b. upper bits num < b) (ap (λ n. 2 ^ n) (sym h) ∙ pow-add j k)
      (mod-lt (bits * 2 ^ (16 - num)) (two_pow-pos 16)))

-- The highest bits of what stands at the upper end.
upper-front :
    (bits num j r : ℕ)
    → num ≡ j + r
    → num ≤ 16
    → bits_of j (upper bits num / 2 ^ (16 - j)) ≡ bits_of j (bits / 2 ^ r)
upper-front bits num j r h le =
    let whole : 16 ≡ j + (16 - j) = omega arith in
    append-front (bits_of j (upper bits num / 2 ^ (16 - j))) (bits_of j (bits / 2 ^ r))
      (bits_of (16 - j) (upper bits num)) (bits_of r bits ++ bits_of (16 - num) 0)
      (length-bits_of j _ ∙ sym (length-bits_of j _))
      (sym (bits_of-split j (16 - j) (upper bits num))
        ∙ ap (λ n. bits_of n (upper bits num)) (sym whole)
        ∙ bits_of-upper bits num le
        ∙ ap (λ l. l ++ bits_of (16 - num) 0) (ap (λ n. bits_of n bits) h ∙ bits_of-split j r bits)
        ∙ append_assoc (bits_of j (bits / 2 ^ r)) (bits_of r bits) (bits_of (16 - num) 0))

pub held-upper : (bits num : ℕ) → num ≤ 16 → held (upper bits num) num ≡ bits_of num bits
held-upper bits num h = upper-front bits num num 0 (omega arith) h ∙ ap (bits_of num) (div-one bits)

upper-aligned : (bits num : ℕ) → num ≤ 16 → upper bits num % 2 ^ (16 - num) ≡ 0
upper-aligned bits num h =
    let p = 16 - num in
    let whole : num + p ≡ 16 = omega arith in
    ap (λ n. bits * 2 ^ p % n % 2 ^ p) (ap (λ n. 2 ^ n) (sym whole) ∙ pow-add num p)
    ∙ mod-mod_of_dvd (2 ^ p) (bits * 2 ^ p) (dvd-mul_left (2 ^ p) (2 ^ num))
    ∙ mul-mod_left bits (2 ^ p)

pub upper-IsFilled : (bits num : ℕ) → num ≤ 16 → IsFilled (upper bits num) num
upper-IsFilled bits num h =
    let p = 16 - num in
    let whole : num + p ≡ 16 = omega arith in
    record {
      value = upper bits num / 2 ^ p;
      aligned =
          sym (div-add-mod' (upper bits num) (2 ^ p))
          ∙ ap (λ x. upper bits num / 2 ^ p * 2 ^ p + x) (upper-aligned bits num h)
          ∙ omega arith;
      small = upper-lt bits num num p whole;
    }

-- One byte: the bits of the buffer, and behind them the first of the new bits.
new_bits-front :
    (buffer count bits num j r : ℕ)
    → IsFilled buffer count
    → count + j ≡ 8
    → num ≡ j + r
    → num ≤ 16
    → bits_of 8 (new_bits buffer count bits num % 2 ^ 8)
      ≡ held buffer count ++ bits_of j (bits / 2 ^ r)
new_bits-front buffer count bits num j r h whole parts le =
    let v = h.value in
    let place : count + 8 ≡ 16 - j = omega arith in
    let rest : 16 - count ≡ j + 8 = omega arith in
    let low = upper bits num / 2 ^ (16 - j) in
    let low_small : low < 2 ^ j = upper-lt bits num j (16 - j) (omega arith) in
    let aligned : buffer / 2 ^ 8 ≡ v * 2 ^ j =
      ap (λ b. b / 2 ^ 8)
        (h.aligned
          ∙ ap (λ p. v * p) (ap (λ n. 2 ^ n) rest ∙ pow-add j 8)
          ∙ sym (mul_assoc v (2 ^ j) (2 ^ 8)))
      ∙ mul-div_cancel (v * 2 ^ j) (two_pow-pos 8) in
    let merged : new_bits buffer count bits num ≡ v * 2 ^ j + low =
      ap (λ k. bit_or (upper bits num / 2 ^ k) (buffer / 2 ^ 8)) place
      ∙ ap (bit_or low) aligned
      ∙ bit_or-add_low j v low low_small in
    bits_of-mod 8 8 (new_bits buffer count bits num) (omega arith)
    ∙ ap (bits_of 8) merged
    ∙ ap (λ n. bits_of n (v * 2 ^ j + low)) (sym whole)
    ∙ bits_of-join count j v low low_small
    ∙ ap₂ ◌++◌ (sym (held-IsFilled buffer count h)) (upper-front bits num j r parts le)

pub record IsCut (room buffer count bits num : ℕ) (bytes : Text) (left : Left) : Type 0 where
  pub same_bits :
      bits_in bytes ++ (held left.buffer left.buffer_count ++ bits_of left.num_bits_out bits)
      ≡ held buffer count ++ bits_of num bits
  pub filled : IsFilled left.buffer left.buffer_count
  pub fewer : left.num_bits_out ≤ num
  pub fits : length bytes ≤ room
  pub all_used : (length bytes ≡ room) ⊎ (left.buffer_count + left.num_bits_out < 8)
  pub stays_empty : count ≡ 0 → left.buffer_count ≡ 0
  pub emptied :
      1 ≤ room → 8 ≤ count + num → (left.buffer_count ≡ 0) × (left.num_bits_out + 8 ≤ count + num)

pub zero-IsFilled : IsFilled 0 0
zero-IsFilled = record { value = 0; aligned = refl; small = omega arith }

pub put_bytes-IsCut :
    (room buffer count bits num : ℕ)
    → IsFilled buffer count
    → count ≤ 7
    → num ≤ 16
    → let (bytes, left) = put_bytes room buffer count bits num in
      IsCut room buffer count bits num bytes left
unfolding put_bytes
put_bytes-IsCut zero buffer count bits num h few le = record {
  same_bits = refl;
  filled = h;
  fewer = omega arith;
  fits = omega arith;
  all_used = inl refl;
  stays_empty = λ e. e;
  emptied = λ some enough. absurd (omega arith);
}
put_bytes-IsCut (suc room) buffer count bits num h few le =
    let j = 8 - count in
    let r = num - j in
    elim (ltb-cases (count + num) 8) [
      | inl (short, lt) ↦
          rw (short, put_bytes)
            (record {
              same_bits = refl;
              filled = h;
              fewer = omega arith;
              fits = omega arith;
              all_used = inr lt;
              stays_empty = λ e. e;
              emptied = λ some enough. absurd (omega arith);
            })
      | inr (long, enough) ↦
          let parts : num ≡ j + r = omega arith in
          let rest = put_bytes-IsCut room 0 0 bits r zero-IsFilled (omega arith) (omega arith) in
          let (bytes, left) = put_bytes room 0 0 bits r in
          let first = new_bits-front buffer count bits num j r h (omega arith) parts le in
          rw (long, put_bytes)
            (record {
              same_bits =
                  append_assoc _ (bits_in bytes) _
                  ∙ ap₂ ◌++◌ first rest.same_bits
                  ∙ ap
                      (λ l.
                        (held buffer count ++ bits_of j (bits / 2 ^ r)) ++ (l ++ bits_of r bits))
                      (held-zero 0)
                  ∙ append_assoc (held buffer count) (bits_of j (bits / 2 ^ r)) (bits_of r bits)
                  ∙ ap (λ l. held buffer count ++ l)
                      (sym (bits_of-split j r bits) ∙ ap (λ n. bits_of n bits) (sym parts));
              filled = rest.filled;
              fewer = omega (arith, rest.fewer);
              fits = omega (arith, rest.fits);
              all_used = elim rest.all_used [ inl e ↦ inl (ap suc e) | inr few ↦ inr few ];
              stays_empty = λ e. rest.stays_empty refl;
              emptied = λ some enough. (rest.stays_empty refl, omega (arith, rest.fewer));
            })
    ]
