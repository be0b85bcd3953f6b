-- ===== src/Crc16/Tests.antt =====
-- The two functions with a checksum of sixteen bits that is simple to follow, the sum of the bytes.
use gr_ccsds.Prelude.{ℕ, ◌+◌, ◌%◌, ◌≡◌, ◌↔◌, refl, true, false, [], ◌∷◌, Text, ok, arith}
use gr_ccsds.Prelude.Int.{pos}
use gr_ccsds.Crc16.Defs.{low_word, pack_word, unpack_word, gen_and_append_crc16, check_crc16}
use gr_ccsds.Crc16.Laws.{IsDocumented, check_crc16_iff}

abbrev total : Text → ℕ
total [] = 0
total (c ∷ s) = c + total s

abbrev byte_sum : Text → ℕ
byte_sum s = total s % 65536

byte_sum-IsDocumented : IsDocumented byte_sum pos
byte_sum-IsDocumented = record { word = λ s. omega arith; small_mask = λ n _. refl }

sent : gen_and_append_crc16 byte_sum pos (200 ∷ 100 ∷ []) ≡ ok (200 ∷ 100 ∷ 1 ∷ 44 ∷ [])
unfolding gen_and_append_crc16 pack_word low_word
sent = refl

damaged : check_crc16 byte_sum (200 ∷ 101 ∷ 1 ∷ 44 ∷ []) ≡ ok (false, 200 ∷ 101 ∷ [])
unfolding check_crc16 unpack_word
damaged = refl

check_crc16_iff_example :
    (check_crc16 byte_sum (200 ∷ 100 ∷ 1 ∷ 44 ∷ []) ≡ ok (true, 200 ∷ 100 ∷ []))
    ↔ (gen_and_append_crc16 byte_sum pos (200 ∷ 100 ∷ []) ≡ ok (200 ∷ 100 ∷ 1 ∷ 44 ∷ []))
check_crc16_iff_example =
    check_crc16_iff byte_sum pos byte_sum-IsDocumented (200 ∷ 100 ∷ 1 ∷ 44 ∷ []) (200 ∷ 100 ∷ [])
      (omega arith)
