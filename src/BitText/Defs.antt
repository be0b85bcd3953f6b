-- ===== src/BitText/Defs.antt =====
-- Binary and hexadecimal texts, by Python's `int(s, 16)`, `bin`, `zfill` and `translate`.
use gr_ccsds.Prelude.{
  ℕ, zero, suc, ◌+◌, ◌-◌, ◌*◌, ◌/◌, ◌%◌, true, false, ◌&&◌, ◌||◌, Option, none, some, [], ◌∷◌, ◌++◌,
  map, Text, Result, ok, value_error, or_raise, ◌>>=◌, length, replicate, rstrip, rstrip_by,
  lstrip_by, is_space, leb, ◌==◌, if◌then◌else◌,
}
use gr_ccsds.Prelude.Int.{ℤ, pos, negsuc, sub_ℕ}

-- The value of a hexadecimal digit.
unfoldable pub hex_digit : ℕ → Option ℕ
hex_digit c =
    if leb 48 c && leb c 57
    then some (c - 48)
    else if leb 65 c && leb c 70
    then some (c - 55)
    else if leb 97 c && leb c 102
    then some (c - 87)
    else none

-- The value of hexadecimal digits, behind the value `n` of those before them.
unfoldable pub hex_value : ℕ → Text → Option ℕ
hex_value n [] = some n
hex_value n (c ∷ s) = elim (hex_digit c) [ none ↦ none | some d ↦ hex_value (n * 16 + d) s ]

-- At least one digit.
unfoldable pub hex_digits : Text → Option ℕ
unfolding hex_value
hex_digits [] = none
hex_digits (c ∷ s) = hex_value 0 (c ∷ s)

-- The prefix 0x may stand before the digits.
unfoldable pub unsigned : Text → Option ℕ
unfolding hex_digits
unsigned (z ∷ x ∷ s) =
    if (z == b'0') && ((x == b'x') || (x == b'X')) then hex_digits s else hex_digits (z ∷ x ∷ s)
unsigned s = hex_digits s

-- A sign may stand before the number.
unfoldable pub signed : Text → Option ℤ
unfolding unsigned
signed [] = none
signed (c ∷ s) =
    let minus : Option ℤ = elim (unsigned s) [ none ↦ none | some n ↦ some (sub_ℕ 0 n) ] in
    let plus : Option ℤ = elim (unsigned s) [ none ↦ none | some n ↦ some (pos n) ] in
    let plain : Option ℤ = elim (unsigned (c ∷ s)) [ none ↦ none | some n ↦ some (pos n) ] in
    if c == b'-' then minus else if c == b'+' then plus else plain

-- int(s, 16)
unfoldable pub hexstr2int : Text → Result ℤ
unfolding signed lstrip_by rstrip_by
hexstr2int s = or_raise value_error (signed (lstrip_by is_space (rstrip s)))

-- The binary digits of `n` before `acc`; `n` rounds are enough.
unfoldable pub bits : ℕ → ℕ → Text → Text
bits zero n acc = acc
bits (suc f) n acc = elim (n == 0) [ true ↦ acc | false ↦ bits f (n / 2) ((b'0' + n % 2) ∷ acc) ]

unfoldable pub binary : ℕ → Text
unfolding bits
binary n = if n == 0 then b'0' ∷ [] else bits n n []

-- bin(n)[2:], where bin writes 0b before the digits, and -0b for a negative n
unfoldable pub bin_tail : ℤ → Text
unfolding binary
bin_tail (pos n) = binary n
bin_tail (negsuc n) = b'b' ∷ binary (suc n)

abbrev pub pad : ℕ → Text → Text
pad width s = replicate (width - length s) b'0' ++ s

-- s.zfill(width): a sign stays in front
unfoldable pub zfill : ℕ → Text → Text
zfill width [] = pad width []
zfill width (c ∷ s) =
    if (c == b'+') || (c == b'-') then c ∷ pad (width - 1) s else pad width (c ∷ s)

unfoldable pub int2binstr : ℤ → ℕ → Text
unfolding bin_tail zfill
int2binstr num length = zfill length (bin_tail num)

-- `none` is the default for the length.
unfoldable pub hexstr2binstr : Text → Option ℕ → Result Text
unfolding hexstr2int
hexstr2binstr s width = do
  n ← hexstr2int s
  ok (int2binstr n (elim width [ none ↦ length s * 4 | some w ↦ w ]))

-- s.translate(maketrans("10", "01"))
abbrev pub flip : ℕ → ℕ
flip c = if c == b'1' then b'0' else if c == b'0' then b'1' else c

unfoldable pub complement : Text → Text
complement = map flip
