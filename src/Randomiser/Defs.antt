-- ===== src/Randomiser/Defs.antt =====
-- lib/randomiser_impl.cc: a shift register of eight bits, whose output is added to each message.
use Prim.Native.Nat.{bit_and, bit_xor}
use gr_ccsds.Prelude.{ℕ, zero, suc, ◌+◌, ◌*◌, ◌/◌, ◌%◌, ◌^◌, Bool, true, false, List, [], ◌∷◌, Text}
use gr_ccsds.Pdu.Message.{blob, floats, values, no_vector, Message, eof, no_pair, no_dict, pdu}

pub record Randomiser : Type 0 where
  pub poly : ℕ
  pub seed : ℕ
  pub state : ℕ
  pub stopped : Bool

abbrev pub make : ℕ → ℕ → Randomiser
make polynomial seed = record { poly = polynomial; seed = seed; state = seed; stopped = false }

-- The exclusive or of `n` bits, from the lowest one on.
unfoldable pub parity : ℕ → ℕ → ℕ
parity zero bits = 0
parity (suc n) bits = bit_xor (bits % 2) (parity n (bits / 2))

-- One round of the inner loop on the state. The shifted state has no lowest bit, so that the new one is
-- added to it.
unfoldable pub shift : ℕ → ℕ → ℕ
shift poly state = state * 2 % 2 ^ 8 + parity 8 (bit_and state poly)

-- `n` rounds: the bits collected, behind those of `out`, and the state.
unfoldable pub collect : ℕ → ℕ → ℕ → ℕ → ℕ × ℕ
collect zero poly out state = (out, state)
collect (suc n) poly out state =
    collect n poly (out * 2 % 2 ^ 8 + state / 2 ^ 7 % 2) (shift poly state)

abbrev pub get_next_byte : ℕ → ℕ → ℕ × ℕ
get_next_byte poly state = collect 8 poly 0 state

-- The loop over the bytes of a message.
unfoldable pub mask : ℕ → ℕ → Text → Text × ℕ
mask poly state [] = ([], state)
mask poly state (b ∷ s) =
    let (key, state') = get_next_byte poly state in
    let (rest, state'') = mask poly state' s in (bit_xor b key ∷ rest, state'')

-- The handler of messages. Each one starts from the seed.
unfoldable pub process_frame : Randomiser → Message → Randomiser × List Message
process_frame r eof = (record r { stopped = true }, eof ∷ [])
process_frame r no_pair = (r, [])
process_frame r (no_dict p) = (r, [])
process_frame r (pdu h (blob s)) =
    let (out, state') = mask r.poly r.seed s in (record r { state = state' }, pdu h (blob out) ∷ [])
process_frame r (pdu h (floats s)) = (r, [])
process_frame r (pdu h (values s)) = (r, [])
process_frame r (pdu h no_vector) = (r, [])
