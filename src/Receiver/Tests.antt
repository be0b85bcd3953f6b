-- ===== src/Receiver/Tests.antt =====
-- The receiver with all stages, and the theorems at options that meet their hypotheses.
use gr_ccsds.Prelude.{
  ◌*◌, ◌≡◌, refl, none, some, Bool, true, false, [], Text, codes, All, ok, length, arith,
}
use gr_ccsds.Prelude.Int.{ℤ, pos, negsuc, ◌-ℤ◌, ◌*ℤ◌}
use gr_ccsds.Config.Values.{integer}
use gr_ccsds.BitText.Defs.{hex_digit, hexstr2int, hexstr2binstr, int2binstr}
use gr_ccsds.BitText.Complement.{IsBit}
use gr_ccsds.Receiver.Marker.{
  Options, Encoder, marker_of, encoded_marker, shift_right, threshold_of,
}
use gr_ccsds.Receiver.Blocks.{bpsk_frame_sync}
use gr_ccsds.Receiver.ReceivePath.{receive_path}
use gr_ccsds.Receiver.Joined.{
  Joined, untouched, stage_sizes, decoded_bits, receive_path-Joined, LeftUnread,
  receive_path-LeftUnread,
}
use gr_ccsds.Receiver.Threshold.{Exclusive, bpsk_frame_sync-Exclusive}

-- An encoder whose result is simple to follow: the number itself.
abbrev identity_encoder : Encoder
identity_encoder _ _ num _ _ _ = num

abbrev options : Bool → Text → Options
options viterbi code = record {
  from_usrp = false;
  from_file = some (codes "in.dat");
  repeat_file = false;
  frame_sync = true;
  viterbi27 = viterbi;
  derandomise = true;
  reed_solomon = true;
  inspect_queue = true;
  to_file = none;
  sync = codes "Costas";
  frame_syms = pos 20400;
  asm_syms = pos 64;
  sync_threshold = negsuc 0;
  access_code = code;
  code_length = length code * 4;
  centre_freq = integer (pos 0);
  usrp_gain = integer (pos 1);
  sps = pos 2;
  sym_rate = integer (pos 2000000);
  file_path = codes "/tmp/";
}

abbrev all_stages : Options
all_stages = options true (codes "1ACFFC1D")

abbrev encoded : Text × ℤ
encoded = (codes "0000000000000000000000011010110011111111110000011101", pos 52)

all_stages-marker : marker_of identity_encoder all_stages ≡ ok encoded
unfolding marker_of encoded_marker hexstr2binstr hexstr2int hex_digit int2binstr shift_right ◌-ℤ◌
    ◌*ℤ◌
all_stages-marker = refl

all_stages-code : hexstr2int (codes "1ACFFC1D") ≡ ok (pos 0x1ACFFC1D)
unfolding hexstr2int hex_digit
all_stages-code = refl

receive_path-Joined_example :
    Joined
      (stage_sizes all_stages (pos 0x1ACFFC1D) (decoded_bits all_stages (pos 20400)))
      (decoded_bits all_stages (pos 20400) -ℤ pos 1280)
      (receive_path identity_encoder all_stages (untouched (pos 20400)))
receive_path-Joined_example =
    receive_path-Joined identity_encoder all_stages (pos 20400) encoded (pos 0x1ACFFC1D)
      (λ _. all_stages-marker) (λ _. all_stages-code) refl

-- An empty path, as `--to-file=` on the command line gives it.
abbrev no_sink : Options
no_sink = record all_stages { inspect_queue = false; to_file = some [] }

no_sink-marker : marker_of identity_encoder no_sink ≡ ok encoded
unfolding marker_of encoded_marker hexstr2binstr hexstr2int hex_digit int2binstr shift_right ◌-ℤ◌
    ◌*ℤ◌
no_sink-marker = refl

receive_path-LeftUnread_example :
    LeftUnread (receive_path identity_encoder no_sink (untouched (pos 20400)))
receive_path-LeftUnread_example =
    receive_path-LeftUnread identity_encoder no_sink (pos 20400) encoded (pos 0x1ACFFC1D)
      (λ _. no_sink-marker) (λ _. all_stages-code) refl

-- The threshold that the program starts from.
abbrev default_options : Options
default_options = record all_stages { sync_threshold = pos 5 }

default_options-marker : marker_of identity_encoder default_options ≡ ok encoded
unfolding marker_of encoded_marker hexstr2binstr hexstr2int hex_digit int2binstr shift_right ◌-ℤ◌
    ◌*ℤ◌
default_options-marker = refl

encoded-IsBit : All IsBit encoded.0
encoded-IsBit = omega arith

bpsk_frame_sync-Exclusive_example :
    Exclusive encoded.0
      (threshold_of default_options encoded.1)
      (untouched (pos 20400))
      (bpsk_frame_sync identity_encoder default_options (untouched (pos 20400)))
bpsk_frame_sync-Exclusive_example =
    bpsk_frame_sync-Exclusive identity_encoder default_options encoded (untouched (pos 20400))
      default_options-marker encoded-IsBit
