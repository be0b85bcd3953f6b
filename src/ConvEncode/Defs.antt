-- ===== src/ConvEncode/Defs.antt =====
-- include/ccsds/conv_puncturing27.h, lib/conv_encode27_aux.cc and lib/conv_encode27_bb_impl.cc: the
-- convolutional encoder. A test of one bit is a test of the digit of the number; shifts to the left keep
-- the width of the C++ type.
use Prim.Native.Nat.{bit_or, bit_xor}
use gr_ccsds.Prelude.{
  ℕ, zero, suc, ◌+◌, ◌-◌, ◌*◌, ◌/◌, ◌%◌, ◌^◌, Bool, true, false, List, [], ◌∷◌, ◌++◌, Text, length,
  get_or, ltb, ◌==◌, if◌then◌else◌,
}

-- punct_t, with NONE as `unpunctured`
pub data PunctT : Type 0 where
  unpunctured ecss_23 ecss_34 ecss_56 ecss_78 : PunctT

abbrev pub get_pattern_len : PunctT → ℕ
get_pattern_len unpunctured = 1
get_pattern_len ecss_23 = 4
get_pattern_len ecss_34 = 3
get_pattern_len ecss_56 = 10
get_pattern_len ecss_78 = 14

abbrev pub get_pattern : PunctT → List Bool
get_pattern unpunctured = true ∷ []
get_pattern ecss_23 = true ∷ true ∷ false ∷ true ∷ []
get_pattern ecss_34 = true ∷ true ∷ false ∷ []
get_pattern ecss_56 = true ∷ true ∷ false ∷ true ∷ true ∷ false ∷ false ∷ true ∷ true ∷ false ∷ []
get_pattern ecss_78 =
    true ∷ true ∷ false ∷ true ∷ false ∷ true ∷ false ∷ true ∷ true ∷ false ∷ false ∷ true ∷ true
    ∷ false ∷ []

-- What the constructor of conv_encode27_aux sets once.
pub record Code : Type 0 where
  pub invert_c1 : Bool
  pub invert_c2 : Bool
  pub poly_c1 : ℕ
  pub poly_c2 : ℕ
  pub punct_type : PunctT

abbrev pub make_code : ℕ → ℕ → PunctT → Code
make_code gen_poly_c1 gen_poly_c2 puncturing = record {
  invert_c1 = gen_poly_c1 / 2 ^ 7 % 2 == 1;
  invert_c2 = gen_poly_c2 / 2 ^ 7 % 2 == 1;
  poly_c1 = gen_poly_c1 % 2 ^ 7;
  poly_c2 = gen_poly_c2 % 2 ^ 7;
  punct_type = puncturing;
}

pub record ConvEncode : Type 0 where
  pub code : Code
  pub state : ℕ
  pub punct_count : ℕ
  pub buffer : ℕ
  pub buffer_count : ℕ

abbrev pub make : ℕ → ℕ → PunctT → ConvEncode
make gen_poly_c1 gen_poly_c2 puncturing = record {
  code = make_code gen_poly_c1 gen_poly_c2 puncturing;
  state = 0;
  punct_count = 0;
  buffer = 0;
  buffer_count = 0;
}

-- The loop over the shift registers, with `k` rounds left, on one of its two outputs.
unfoldable pub taps : ℕ → ℕ → ℕ → ℕ → ℕ → ℕ
taps zero t poly state out = out
taps (suc k) t poly state out = taps k (t + 1) poly state (
    if state / 2 ^ (7 + t) % 2 == 1
    then bit_xor out (if poly / 2 ^ (6 - t) % 2 == 1 then 1 else 0)
    else out)

-- bit1 and bit2
abbrev pub output_bit : Bool → ℕ → ℕ → ℕ
output_bit invert poly state =
    let out = taps 7 0 poly state 0 in (if invert then bit_xor out 1 else out) % 2

-- The loop over the bits of a byte, with `k` rounds left: the output bits and the state.
unfoldable pub encode_rounds : Code → ℕ → ℕ → ℕ → ℕ × ℕ
encode_rounds c zero output_bits state = (output_bits, state)
encode_rounds c (suc k) output_bits state =
    let bit1 = output_bit c.invert_c1 c.poly_c1 state in
    let bit2 = output_bit c.invert_c2 c.poly_c2 state in
    encode_rounds c k (bit_or (bit_or (output_bits * 2 ^ 2 % 2 ^ 16) (bit1 * 2)) bit2)
      (state * 2 % 2 ^ 15)

-- encode(output_bits, input_byte), with the state after it
unfoldable pub encode : Code → ℕ → ℕ → ℕ × ℕ
encode c state input_byte =
    let (output_bits, state') = encode_rounds c 8 0 (bit_or state input_byte) in
    (output_bits, state' % 2 ^ 15 / 2 ^ 8 * 2 ^ 8)

-- The loop over the input bits, from the `i`-th on, with `k` rounds left: the output bits, their number
-- and the count within the pattern.
unfoldable pub puncture_rounds : PunctT → ℕ → ℕ → ℕ → ℕ → ℕ → ℕ → ℕ × ℕ × ℕ
puncture_rounds p zero i input_bits output_bits num_out_bits count =
    (output_bits, num_out_bits, count)
puncture_rounds p (suc k) i input_bits output_bits num_out_bits count =
    let keeps = get_or (get_pattern p) count false in
    puncture_rounds p k (i + 1) input_bits
      (if keeps
        then bit_or (output_bits * 2 % 2 ^ 16) (input_bits / 2 ^ (15 - i) % 2)
        else output_bits)
      (if keeps then num_out_bits + 1 else num_out_bits) ((count + 1) % get_pattern_len p)

-- puncture(output_bits, num_out_bits, input_bits)
abbrev pub puncture : PunctT → ℕ → ℕ → ℕ × ℕ × ℕ
puncture p input_bits count = puncture_rounds p 16 0 input_bits 0 0 count

-- encode_punct's choice: the output bits, their number and the count
unfoldable pub select_bits : PunctT → ℕ → ℕ → ℕ × ℕ × ℕ
select_bits unpunctured encoded count = (encoded, 16, count)
select_bits ecss_23 encoded count = puncture ecss_23 encoded count
select_bits ecss_34 encoded count = puncture ecss_34 encoded count
select_bits ecss_56 encoded count = puncture ecss_56 encoded count
select_bits ecss_78 encoded count = puncture ecss_78 encoded count

-- encode_punct(output_bits, num_out_bits, input_byte): the encoder after it, the bits and their number
unfoldable pub encode_punct : ConvEncode → ℕ → ConvEncode × ℕ × ℕ
encode_punct e input_byte =
    let (encoded, state) = encode e.code e.state input_byte in
    let (output_bits, num_out_bits, count) = select_bits e.code.punct_type encoded e.punct_count in
    (record e { state = state; punct_count = count }, output_bits, num_out_bits)

-- new_bits: the bits of the buffer, and behind them new ones
abbrev pub new_bits : ℕ → ℕ → ℕ → ℕ → ℕ
new_bits buffer buffer_count bits_enc num_bits_out =
    bit_or (bits_enc * 2 ^ (16 - num_bits_out) % 2 ^ 16 / 2 ^ (buffer_count + 8)) (buffer / 2 ^ 8)

-- What the inner loop leaves: the buffer and the number of bits that are not yet put out.
pub record Left : Type 0 where
  pub buffer : ℕ
  pub buffer_count : ℕ
  pub num_bits_out : ℕ

-- The inner loop, with room for so many bytes: the bytes that it puts out, and what it leaves.
unfoldable pub put_bytes : ℕ → ℕ → ℕ → ℕ → ℕ → Text × Left
put_bytes zero buffer buffer_count bits_enc num_bits_out =
    ([], record { buffer = buffer; buffer_count = buffer_count; num_bits_out = num_bits_out })
put_bytes (suc room) buffer buffer_count bits_enc num_bits_out =
    elim (ltb (buffer_count + num_bits_out) 8) [
      | true ↦
          ([], record { buffer = buffer; buffer_count = buffer_count; num_bits_out = num_bits_out })
      | false ↦
          let (bytes, left) = put_bytes room 0 0 bits_enc (num_bits_out - (8 - buffer_count)) in
          (new_bits buffer buffer_count bits_enc num_bits_out % 2 ^ 8 ∷ bytes, left)
    ]

-- The end of a round of the outer loop: the bits that are left go into the buffer.
abbrev pub keep_bits : ConvEncode → ℕ → Left → ConvEncode
keep_bits e bits_enc left =
    if ltb 0 left.num_bits_out
    then record e {
      buffer = bits_enc * 2 ^ (16 - left.num_bits_out) % 2 ^ 16;
      buffer_count = left.num_bits_out;
    }
    else record e { buffer = left.buffer; buffer_count = left.buffer_count }

-- The outer loop, with room for so many bytes: the encoder after it, the bytes that it puts out and the
-- input that it does not consume.
unfoldable pub encode_bytes : ConvEncode → ℕ → Text → ConvEncode × Text × Text
encode_bytes e room [] = (e, [], [])
encode_bytes e zero (b ∷ input) = (e, [], b ∷ input)
encode_bytes e (suc room) (b ∷ input) =
    let (e', bits_enc, num_bits_out) = encode_punct e b in
    let (bytes, left) = put_bytes (suc room) e.buffer e.buffer_count bits_enc num_bits_out in
    let (e'', rest, unread) =
      encode_bytes (keep_bits e' bits_enc left) (suc room - length bytes) input in
    (e'', bytes ++ rest, unread)

-- general_work(), with room for so many bytes
unfoldable pub general_work : ConvEncode → ℕ → Text → ConvEncode × Text × Text
general_work e zero input = if ltb e.buffer_count 8 then encode_bytes e 0 input else (e, [], input)
general_work e (suc room) input =
    if ltb e.buffer_count 8
    then encode_bytes e (suc room) input
    else (let e' = record e {
      buffer = e.buffer * 2 ^ 8 % 2 ^ 16;
      buffer_count = e.buffer_count - 8;
    } in
        let (e'', rest, unread) = encode_bytes e' room input in
        (e'', e.buffer / 2 ^ 8 % 2 ^ 8 ∷ rest, unread))

-- Calls of general_work in turn, each with room for so many bytes and with the input that is not yet
-- consumed: the encoder after them, the bytes put out in all and the input that is left.
unfoldable pub run : ConvEncode → List ℕ → Text → ConvEncode × Text × Text
run e [] input = (e, [], input)
run e (room ∷ rooms) input =
    let (e', out, unread) = general_work e room input in
    let (e'', rest, left) = run e' rooms unread in (e'', out ++ rest, left)
