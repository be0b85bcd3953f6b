-- ===== src/Pdu/Experiment.antt =====
-- The experiments of python/qa_randomiser.py and python/qa_reversebits.py: messages of bytes are posted
-- to a block, and what it publishes is compared with what is expected.
use gr_ccsds.Prelude.{
  ℕ, ◌+◌, none, some, Bool, true, false, not, List, [], ◌∷◌, Text, text_eq, Result, ok, err,
  assertion_error, runtime_error, ◌>>=◌, ◌>>◌, refuse_if, length, get_elem?, ◌==◌,
}
use gr_ccsds.Prelude.Int.{ℤ, pos, eq_ℤ}
use gr_ccsds.Pdu.Message.{whole, Header, Payload, blob, Message, eof, pdu, dict_ref}

-- The messages of bytes with their numbers in the header, and the end of the stream.
unfoldable pub numbered : ℕ → List Text → List Message
numbered i [] = eof ∷ []
numbered i (m ∷ ms) = pdu (("frame_number", whole (pos i)) ∷ []) (blob m) ∷ numbered (i + 1) ms

-- self.assertEqual(a, b), for a test on the two values
abbrev pub assert : Bool → Result (Unit {0})
assert b = refuse_if (not b) assertion_error

-- self.dbg.get_message(i): an index out of range raises, as taking a value apart that is no pair does.
abbrev pub get_message : List Message → ℕ → Result Message
get_message stored i = elim (get_elem? stored i) [ none ↦ err runtime_error | some m ↦ ok m ]

abbrev pub is_eof : Message → Bool
is_eof eof = true
is_eof _ = false

-- int(pmt.to_long(pmt.dict_ref(header, "frame_number", default)))
unfoldable pub frame_number : Header → ℤ → Result ℤ
frame_number h default = elim (dict_ref h "frame_number") [
  | none ↦ ok default
  | some v ↦ elim v [ whole n ↦ ok n | _ ↦ err runtime_error ]
]

-- The bytes of a vector, by u8vector_ref.
unfoldable pub bytes_of : Payload → Result Text
bytes_of (blob s) = ok s
bytes_of _ = err runtime_error

-- The tests on one message: its number, and its bytes against those that are expected.
unfoldable pub check_message : ℕ → ℤ → Text → Message → Result (Unit {0})
check_message i default expected (pdu h p) = do
  n ← frame_number h default
  assert (eq_ℤ (pos i) n)
  received ← bytes_of p
  assert (text_eq expected received)
check_message i default expected _ = err runtime_error

-- The loop over the expected messages, from the `i`-th on.
unfoldable pub check_messages : ℕ → ℤ → List Text → List Message → Result (Unit {0})
check_messages i default [] stored = ok tt
check_messages i default (expected ∷ rest) [] = err runtime_error
check_messages i default (expected ∷ rest) (m ∷ stored) = do
  check_message i default expected m
  check_messages (i + 1) default rest stored

-- The tests on the messages that were stored, when `n` were posted before the end of the stream.
unfoldable pub judge : ℕ → List Text → List Message → Result (Unit {0})
judge n expected stored = do
  assert (length stored == n + 1)
  last ← get_message stored n
  assert (is_eof last)
  check_messages 0 (pos (n + 100)) expected stored
