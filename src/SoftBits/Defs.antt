-- ===== src/SoftBits/Defs.antt =====
-- include/ccsds/softbits.h, lib/byte_to_softbits_bf_impl.cc, lib/soft_to_hard_message_impl.cc and
-- lib/softbits_msg_to_bytes_b_impl.cc. A soft bit is a float, of which only the sign decides: it stands in
-- thousandths, and is no NaN.
use gr_ccsds.Prelude.{
  ℕ, zero, suc, ◌+◌, ◌*◌, ◌/◌, ◌%◌, ◌^◌, Option, none, some, Bool, true, false, ◌&&◌, List, [], ◌∷◌,
  ◌++◌, Text, length, take, drop, ltb, ◌==◌, if◌then◌else◌,
}
use gr_ccsds.Prelude.Int.{ℤ, pos, negsuc, ◌-ℤ◌}
use gr_ccsds.Pdu.Message.{blob, floats, values, no_vector, Message, eof, no_pair, no_dict, pdu}

-- 1 for a soft bit of 0.0 or more, and else 0
abbrev pub hard_decision : ℤ → ℕ
hard_decision (pos n) = 1
hard_decision (negsuc n) = 0

-- The soft bit of a bit: 2.0 divided by the noise power, which is `magnitude`, with the bit's sign.
abbrev pub create_from_bit : ℤ → Bool → ℤ
create_from_bit magnitude b = if b then magnitude else pos 0 -ℤ magnitude

-- The soft bits of the `n` lowest bits of a byte, from the highest one on: the inner loop of `work`.
unfoldable pub byte_softbits : ℕ → ℤ → ℕ → List ℤ
byte_softbits zero magnitude byte = []
byte_softbits (suc n) magnitude byte =
    create_from_bit magnitude (byte / 2 ^ n % 2 == 1) ∷ byte_softbits n magnitude byte

-- byte_to_softbits_bf: work()
unfoldable pub to_softbits : ℤ → Text → List ℤ
to_softbits magnitude [] = []
to_softbits magnitude (b ∷ s) = byte_softbits 8 magnitude b ++ to_softbits magnitude s

pub record SoftToHard : Type 0 where
  pub stopped : Bool

-- The inner loop of process_message, with `n` rounds left: each sets a bit of its own, so that the bit is
-- added. The caller gives as many soft bits as there are rounds.
unfoldable pub hard_byte : ℕ → List ℤ → ℕ
hard_byte zero bits = 0
hard_byte (suc n) [] = 0
hard_byte (suc n) (b ∷ bits) = hard_decision b * 2 ^ n + hard_byte n bits

-- The outer loop, with `n` bytes left.
unfoldable pub hard_bytes : ℕ → List ℤ → Text
hard_bytes zero bits = []
hard_bytes (suc n) bits = hard_byte 8 bits ∷ hard_bytes n (drop 8 bits)

-- stop(): it publishes the end of the stream each time.
abbrev pub stop_conversion : SoftToHard → SoftToHard × List Message
stop_conversion s = (record s { stopped = true }, eof ∷ [])

-- What process_message does before the end of the stream.
unfoldable pub convert_message : SoftToHard → Message → SoftToHard × List Message
convert_message s eof = stop_conversion s
convert_message s no_pair = (s, [])
convert_message s (no_dict p) = (s, [])
convert_message s (pdu h (blob t)) = (s, [])
convert_message s (pdu h (values t)) = (s, [])
convert_message s (pdu h no_vector) = (s, [])
convert_message s (pdu h (floats bits)) = (
  s,
  if ltb 0 (length bits % 8) then [] else (pdu h (blob (hard_bytes (length bits / 8) bits)) ∷ []),
)

-- soft_to_hard_message: process_message(msg_in)
unfoldable pub process_message : SoftToHard → Message → SoftToHard × List Message
process_message s m = if s.stopped then (s, []) else convert_message s m

pub record BytesQueue : Type 0 where
  pub queue : Text
  pub stopped : Bool

abbrev pub empty_queue : BytesQueue
empty_queue = record { queue = []; stopped = false }

-- The inner loop, with `n` rounds left: a bit that is missing at the end counts as zero.
unfoldable pub shift_in : ℕ → ℕ → List ℤ → ℕ
shift_in zero byte bits = byte
shift_in (suc n) byte [] = shift_in n (byte * 2 % 2 ^ 8) []
shift_in (suc n) byte (b ∷ bits) = shift_in n (byte * 2 % 2 ^ 8 + hard_decision b) bits

-- utils::divide_ceil(num, 8)
abbrev pub divide_ceil : ℕ → ℕ
divide_ceil num = if num % 8 == 0 then num / 8 else num / 8 + 1

-- The outer loop, with `n` bytes left.
unfoldable pub shifted_bytes : ℕ → List ℤ → Text
shifted_bytes zero bits = []
shifted_bytes (suc n) bits = shift_in 8 0 bits ∷ shifted_bytes n (drop 8 bits)

-- softbits_msg_to_bytes_b: process_message(msg_in)
unfoldable pub queue_message : BytesQueue → Message → BytesQueue
queue_message q eof = record q { stopped = true }
queue_message q no_pair = q
queue_message q (no_dict p) = q
queue_message q (pdu h (blob t)) = q
queue_message q (pdu h (values t)) = q
queue_message q (pdu h no_vector) = q
queue_message q (pdu h (floats bits)) = record q {
  queue = q.queue ++ shifted_bytes (divide_ceil (length bits)) bits;
}

abbrev pub is_empty : Text → Bool
is_empty [] = true
is_empty (b ∷ s) = false

-- work(), with room for `n` bytes: the bytes that it puts out, or none when it is done.
unfoldable pub work : BytesQueue → ℕ → BytesQueue × Option Text
work q n =
    if q.stopped && is_empty q.queue
    then (q, none)
    else (record q { queue = drop n q.queue }, some (take n q.queue))
