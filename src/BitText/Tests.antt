-- ===== src/BitText/Tests.antt =====
-- The default marker, and the theorems at inputs that meet their hypotheses.
use mathlib.Core.List.{flat_map}
use gr_ccsds.Prelude.{◌*◌, ◌≡◌, ◌≢◌, refl, none, [], Text, codes, All, ok, err, value_error, length}
use gr_ccsds.Prelude.Int.{negsuc}
use gr_ccsds.BitText.Defs.{hex_digit, hexstr2int, int2binstr, hexstr2binstr}
use gr_ccsds.BitText.Nibbles.{IsHex, nibble, hexstr2binstr-nibbles}

asm : hexstr2binstr (codes "1ACFFC1D") none ≡ ok (codes "00011010110011111111110000011101")
unfolding hexstr2binstr int2binstr hexstr2int hex_digit
asm = refl

with_prefix : hexstr2int (codes " -0x1a\n") ≡ ok (negsuc 25)
unfolding hexstr2int hex_digit
with_prefix = refl

no_digit : hexstr2int (codes "1AZ") ≡ err value_error
unfolding hexstr2int hex_digit
no_digit = refl

abbrev marker : Text
marker = codes "0aF"

marker-IsHex : All IsHex marker
unfolding hex_digit
marker-IsHex = ((0, refl), ((10, refl), ((15, refl), tt)))

marker-ne-nil : marker ≢ []
marker-ne-nil e = cc

hexstr2binstr-nibbles_example :
    (hexstr2binstr marker none ≡ ok (flat_map nibble marker))
    × (length (flat_map nibble marker) ≡ length marker * 4)
hexstr2binstr-nibbles_example = hexstr2binstr-nibbles marker marker-ne-nil marker-IsHex
