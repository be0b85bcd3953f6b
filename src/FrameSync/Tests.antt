-- ===== src/FrameSync/Tests.antt =====
-- The theorems on python/bpsk_frame_sync.py at arguments and payloads that meet their hypotheses.
use gr_ccsds.Prelude.{◌≡◌, refl, none, some, false, [], Text, codes, ok}
use gr_ccsds.Prelude.Int.{ℤ, pos, ◌-ℤ◌, ◌*ℤ◌}
use gr_ccsds.BitText.Defs.{hex_digit, hexstr2int, hexstr2binstr, int2binstr}
use gr_ccsds.Receiver.Marker.{Encoder, encoded_marker, shift_right}
use gr_ccsds.Receiver.Joined.{untouched}
use gr_ccsds.FrameSync.Checks.{Arguments, check_arguments}
use gr_ccsds.FrameSync.Graph.{sync_marker, build}
use gr_ccsds.FrameSync.Frames.{OneQueue, build-OneQueue}

abbrev arguments : Arguments
arguments = record {
  from_file = some (codes "in.dat");
  repeat_file = false;
  access_code = some (codes "1ACFFC1D");
  threshold = pos 3;
  viterbi27 = false;
  to_file = none;
  rest = [];
}

-- An encoder whose result is simple to follow: the number itself.
abbrev same_number : Encoder
same_number _ _ num _ _ _ = num

abbrev marker : Text × ℤ
marker = (codes "0000000000000000000000011010110011111111110000011101", pos 52)

arguments-check : check_arguments arguments ≡ ok tt
unfolding check_arguments
arguments-check = refl

arguments-marker : sync_marker same_number (some (codes "1ACFFC1D")) ≡ ok marker
unfolding sync_marker encoded_marker hexstr2binstr hexstr2int hex_digit int2binstr shift_right ◌-ℤ◌
    ◌*ℤ◌
arguments-marker = refl

build-OneQueue_example : OneQueue 0 (build same_number arguments (untouched (pos 0)))
build-OneQueue_example =
    build-OneQueue same_number arguments marker arguments-check arguments-marker
