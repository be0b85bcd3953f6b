-- ===== src/ReverseBits/Defs.antt =====
-- lib/reversebits_impl.cc: the bits of chosen bytes of each message in reverse order.
use gr_ccsds.Prelude.{
  ℕ, zero, suc, ◌+◌, ◌*◌, ◌/◌, ◌%◌, ◌^◌, none, some, Bool, true, false, List, [], ◌∷◌, Text, length,
  get_elem?, set, leb, ◌==◌, not, if◌then◌else◌,
}
use gr_ccsds.Pdu.Message.{blob, floats, values, no_vector, Message, eof, no_pair, no_dict, pdu}

pub record ReverseBits : Type 0 where
  pub msg_len : ℕ
  pub positions : List ℕ
  pub stopped : Bool

abbrev pub make : ℕ → List ℕ → ReverseBits
make msg_len positions = record { msg_len = msg_len; positions = positions; stopped = false }

-- The rounds that are left, the next one being `i`. The shifted output has no lowest bit, so that the
-- bit of the input is added to it.
unfoldable pub reverse_rounds : ℕ → ℕ → ℕ → ℕ → ℕ
reverse_rounds zero i out b = out
reverse_rounds (suc n) i out b = reverse_rounds n (i + 1) (out * 2 % 2 ^ 8 + b / 2 ^ i % 2) b

abbrev pub reverse_bits : ℕ → ℕ
reverse_bits b = reverse_rounds 8 0 0 b

-- data_out[p] = reverse_bits(data_in[p])
abbrev pub reverse_byte : Text → ℕ → Text → Text
reverse_byte data_in p data_out = elim (get_elem? data_in p) [
  | none ↦ data_out
  | some b ↦ set data_out p (reverse_bits b)
]

-- The loop over the positions.
unfoldable pub reverse_positions : ℕ → Text → List ℕ → Text → Text
reverse_positions msg_len data_in [] data_out = data_out
reverse_positions msg_len data_in (p ∷ ps) data_out =
    reverse_positions msg_len data_in ps
      (if leb msg_len p then data_out else reverse_byte data_in p data_out)

-- The handler of messages.
unfoldable pub process_frame : ReverseBits → Message → ReverseBits × List Message
process_frame r eof = (record r { stopped = true }, eof ∷ [])
process_frame r no_pair = (r, [])
process_frame r (no_dict p) = (r, [])
process_frame r (pdu h (blob s)) = (
  r,
  if not (length s == r.msg_len)
      then []
      else (pdu h (blob (reverse_positions r.msg_len s r.positions s)) ∷ []),
)
process_frame r (pdu h (floats s)) = (r, [])
process_frame r (pdu h (values s)) = (r, [])
process_frame r (pdu h no_vector) = (r, [])
