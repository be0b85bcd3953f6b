-- ===== src/Receiver/Marker.antt =====
-- The options that the flow graph is built from, and the marker that its correlators look for: the
-- first part of `bpsk_frame_sync` in python/bpsk_rx.py.
use gr_ccsds.Prelude.{
  ℕ, ◌/◌, ◌^◌, Option, none, Bool, Text, Result, ok, err, value_error, ◌>>=◌, if◌then◌else◌,
}
use gr_ccsds.Prelude.Int.{ℤ, pos, negsuc, ◌-ℤ◌, ◌*ℤ◌, eq_ℤ}
use gr_ccsds.Config.Values.{Value}
use gr_ccsds.BitText.Defs.{hexstr2int, hexstr2binstr, int2binstr}

-- The options as their types in the table of `getCommandLineConfig` have them. What the receiver only
-- hands on to a demodulator is left as it is.
pub record Options : Type 0 where
  pub from_usrp : Bool
  pub from_file : Option Text
  pub repeat_file : Bool
  pub frame_sync : Bool
  pub viterbi27 : Bool
  pub derandomise : Bool
  pub reed_solomon : Bool
  pub inspect_queue : Bool
  pub to_file : Option Text
  pub sync : Text
  pub frame_syms : ℤ
  pub asm_syms : ℤ
  pub sync_threshold : ℤ
  pub access_code : Text
  pub code_length : ℕ
  pub centre_freq : Value
  pub usrp_gain : Value
  pub sps : ℤ
  pub sym_rate : Value
  pub file_path : Text

-- a >> n: the floor of the quotient; a negative count is a ValueError
unfoldable pub shift_right : ℤ → ℤ → Result ℤ
shift_right (pos a) (pos n) = ok (pos (a / 2 ^ n))
shift_right (negsuc a) (pos n) = ok (negsuc (a / 2 ^ n))
shift_right a (negsuc n) = err value_error

-- a / n for integers: the floor of the quotient
unfoldable pub floor_div : ℤ → ℕ → ℤ
floor_div (pos a) n = pos (a / n)
floor_div (negsuc a) n = negsuc (a / n)

-- s.zfill takes a width below 0 for 0.
abbrev pub width : ℤ → ℕ
width (pos n) = n
width (negsuc n) = 0

-- The convolutional encoder, `ccsds_conv_encode(seed, k)` and then `.encode(num, length, g1, g2)`.
abbrev pub Encoder : Type 0
Encoder = ℤ → ℕ → ℤ → ℤ → ℕ → ℕ → ℤ

-- The marker in channel symbols and their number.
unfoldable pub encoded_marker : Encoder → Text → ℕ → Result (Text × ℤ)
encoded_marker encode access_code code_length = do
  let length2encode = pos code_length -ℤ pos 6
  num ← hexstr2int access_code
  seed ← shift_right num length2encode
  let symbols = length2encode *ℤ pos 2
  ok (int2binstr (encode seed 7 num length2encode 79 109) (width symbols), symbols)

-- `self._access_code` and `code_length`, behind the test on `viterbi27`
unfoldable pub marker_of : Encoder → Options → Result (Text × ℤ)
marker_of encode o = do
  code ← hexstr2binstr o.access_code none
  if o.viterbi27
      then encoded_marker encode o.access_code o.code_length
      else ok (code, pos o.code_length)

-- The threshold of the correlators: a tenth of the length by default.
unfoldable pub threshold_of : Options → ℤ → ℤ
threshold_of o code_length =
    if eq_ℤ o.sync_threshold (negsuc 0) then floor_div code_length 10 else o.sync_threshold
