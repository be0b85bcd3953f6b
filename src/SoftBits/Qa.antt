-- ===== src/SoftBits/Qa.antt =====
-- python/qa_soft_to_hard_message.py, python/qa_softbits_msg_to_bytes_b.py and
-- python/qa_byte_to_softbits_bf.py: how their tests run the blocks and judge what comes out. The comparison
-- of floats is GNU Radio's, and a parameter.
use gr_ccsds.Prelude.{
  ℕ, ◌+◌, ◌*◌, ◌/◌, ◌%◌, none, some, Bool, false, not, List, [], ◌∷◌, map, Text, text_eq, Result,
  ok, err, value_error, runtime_error, assertion_error, ◌>>=◌, ◌>>◌, refuse_if, length, take, drop,
  ◌==◌,
}
use gr_ccsds.Prelude.Int.{ℤ, pos}
use gr_ccsds.Pdu.Message.{
  whole, Header, Payload, blob, floats, Message, eof, no_dict, pdu, dict_ref, published,
}
use gr_ccsds.Pdu.Experiment.{assert, get_message, is_eof}
use gr_ccsds.SortFrames.Qa.{field_eq}
use gr_ccsds.SoftBits.Defs.{to_softbits, process_message, empty_queue}
use gr_ccsds.SoftBits.Queue.{arrives, room, run}

-- The messages of soft bits with their headers, and the end of the stream.
unfoldable pub posted : List Header → List (List ℤ) → List Message
posted [] bits_in = eof ∷ []
posted (h ∷ hs) [] = eof ∷ []
posted (h ∷ hs) (bits ∷ bits_in) = pdu h (floats bits) ∷ posted hs bits_in

-- The loop over the items of the header: each key is there with its value.
unfoldable pub check_header : Header → Header → Result (Unit {0})
check_header [] received = ok tt
check_header ((k, v) ∷ items) received = elim (dict_ref received k) [
  | none ↦ err assertion_error
  | some w ↦ do assert (field_eq v w); check_header items received
]

-- The loop over the expected bytes.
unfoldable pub check_bytes : Text → Text → Result (Unit {0})
check_bytes [] received = ok tt
check_bytes (b ∷ expected) [] = err runtime_error
check_bytes (b ∷ expected) (c ∷ received) = do assert (b == c); check_bytes expected received

unfoldable pub check_value : Text → Payload → Result (Unit {0})
check_value expected (blob s) = do assert (length s == length expected); check_bytes expected s
check_value expected p = err assertion_error

-- One round of the loop over the PDUs.
unfoldable pub check_pdu : Header → Text → Message → Result (Unit {0})
check_pdu h expected (pdu g p) = check_header h g >> check_value expected p
check_pdu [] expected (no_dict p) = check_value expected p
check_pdu (item ∷ h) expected (no_dict p) = err runtime_error
check_pdu h expected m = err assertion_error

unfoldable pub check_pdus : List Header → List Text → List Message → Result (Unit {0})
check_pdus [] bytes_out_exp stored = ok tt
check_pdus (h ∷ hs) [] stored = ok tt
check_pdus (h ∷ hs) (expected ∷ bytes_out_exp) [] = err runtime_error
check_pdus (h ∷ hs) (expected ∷ bytes_out_exp) (m ∷ stored) = do
  check_pdu h expected m
  check_pdus hs bytes_out_exp stored

-- qa_soft_to_hard_message.runTest(header_dict, bits_in, bytes_out_exp)
unfoldable pub run_convert_test : List Header → List (List ℤ) → List Text → Result (Unit {0})
run_convert_test header_dict bits_in bytes_out_exp = do
  refuse_if (not (length bits_in == length header_dict)) value_error
  refuse_if (not (length bytes_out_exp == length header_dict)) value_error
  let stored = published process_message (record { stopped = false }) (posted header_dict bits_in)
  assert (length stored == length header_dict + 1)
  last ← get_message stored (length header_dict)
  assert (is_eof last)
  check_pdus header_dict bytes_out_exp stored

-- The messages of the frames, from the `i`-th on, and the end of the stream.
unfoldable pub posted_frames : ℕ → List (List ℤ) → List Message
posted_frames i [] = eof ∷ []
posted_frames i (bits ∷ frames) =
    pdu (("frame_number", whole (pos i)) ∷ []) (floats bits) ∷ posted_frames (i + 1) frames

-- self.assertTrue(frame_len%8==0) for all frames
unfoldable pub check_lengths : List (List ℤ) → Result (Unit {0})
check_lengths [] = ok tt
check_lengths (bits ∷ frames) = do assert (length bits % 8 == 0); check_lengths frames

-- data[i*frame_len:(i+1)*frame_len]
abbrev pub slice : ℕ → ℕ → Text → Text
slice i frame_len s = take frame_len (drop (i * frame_len) s)

-- The loop over the frames, from the `i`-th on.
unfoldable pub check_slices : ℕ → List (List ℤ) → Text → Text → Result (Unit {0})
check_slices i [] expected computed = ok tt
check_slices i (bits ∷ frames) expected computed = do
  assert (length bits % 8 == 0)
  assert (text_eq (slice i (length bits / 8) expected) (slice i (length bits / 8) computed))
  check_slices (i + 1) frames expected computed

-- What the sink has when the flow graph ends, if work is called once all messages have arrived, with room
-- for all bytes.
unfoldable pub sink_data : List Message → Text
sink_data ms =
    let q = (run empty_queue (map arrives ms)).0 in (run q (room (length q.queue) ∷ [])).1

-- qa_softbits_msg_to_bytes_b.runTest(input_softbits, expected_bytes)
unfoldable pub run_queue_test : List (List ℤ) → Text → Result (Unit {0})
run_queue_test input_softbits expected_bytes = do
  check_lengths input_softbits
  check_slices 0 input_softbits expected_bytes (sink_data (posted_frames 0 input_softbits))

-- qa_byte_to_softbits_bf.run_test(input_data, expected_output, noise_level), with the magnitude of soft
-- bits for that noise
abbrev pub run_softbits_test : (List ℤ → List ℤ → Bool) → Text → List ℤ → ℤ → Result (Unit {0})
run_softbits_test almost_equal input_data expected_output magnitude =
    assert (almost_equal expected_output (to_softbits magnitude input_data))
