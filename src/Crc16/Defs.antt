-- ===== src/Crc16/Defs.antt =====
-- The two functions of python/crc16.py, with the formats of `struct` that they use.
use gr_ccsds.Prelude.{
  ℕ, ◌+◌, ◌-◌, ◌*◌, ◌/◌, ◌%◌, Bool, false, [], ◌∷◌, ◌++◌, Text, Result, ok, err, struct_error,
  ◌>>=◌, length, take, drop, ltb, ◌==◌, if◌then◌else◌,
}
use gr_ccsds.Prelude.Int.{ℤ, pos, negsuc}

-- n & 0xFFFF, for a negative n on its two's complement
unfoldable pub low_word : ℤ → ℕ
low_word (pos n) = n % 65536
low_word (negsuc n) = 65535 - n % 65536

-- struct.pack(">H", n)
unfoldable pub pack_word : ℕ → Result Text
pack_word n = if ltb n 65536 then ok ((n / 256) ∷ (n % 256) ∷ []) else err struct_error

-- struct.unpack("!H", s)
unfoldable pub unpack_word : Text → Result ℕ
unpack_word (a ∷ b ∷ []) = ok (a * 256 + b)
unpack_word _ = err struct_error

-- s[:-2] and s[-2:]
abbrev pub all_but_two : Text → Text
all_but_two s = take (length s - 2) s

abbrev pub last_two : Text → Text
last_two s = drop (length s - 2) s

unfoldable pub gen_and_append_crc16 : (Text → ℕ) → (ℕ → ℤ) → Text → Result Text
gen_and_append_crc16 crc16 hexint s = do w ← pack_word (low_word (hexint (crc16 s))); ok (s ++ w)

unfoldable pub check_crc16 : (Text → ℕ) → Text → Result (Bool × Text)
check_crc16 crc16 s = if ltb (length s) 2 then ok (false, []) else do
  let msg = all_but_two s
  expected ← unpack_word (last_two s)
  ok (crc16 msg == expected, msg)
