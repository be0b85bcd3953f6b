-- ===== src/SoftBits/Tests.antt =====
-- The tests of the soft bits, run on the model, and the theorems at inputs that meet their hypotheses.
use gr_ccsds.Prelude.{◌≡◌, refl, none, true, false, List, [], ◌∷◌, ◌++◌, Bool, ok, replicate, arith}
use gr_ccsds.Prelude.Int.{ℤ, pos, negsuc, ◌-ℤ◌, eq_ℤ, ◌*ℤ◌}
use gr_ccsds.Pdu.Message.{
  whole, blob, floats, Message, eof, no_pair, pdu, dict_ref, deliver, published,
}
use gr_ccsds.SortFrames.Qa.{field_eq}
use gr_ccsds.SoftBits.Defs.{
  byte_softbits, to_softbits, hard_byte, hard_bytes, convert_message, process_message, BytesQueue,
  empty_queue, shift_in, shifted_bytes, queue_message, work,
}
use gr_ccsds.SoftBits.Bits.{process_message-to_softbits, shifted_bytes-hard_bytes}
use gr_ccsds.SoftBits.Stream.{answers, published-answers}
use gr_ccsds.SoftBits.Queue.{Event, arrives, room, step, run, arrived, run-fifo, run-drains}
use gr_ccsds.SoftBits.Qa.{
  posted, check_header, check_bytes, check_value, check_pdu, check_pdus, run_convert_test,
  posted_frames, check_lengths, check_slices, sink_data, run_queue_test,
}
use gr_ccsds.SoftBits.Cases.{
  convert_test_001_t, convert_test_002_t, test_eof, test_one_small, test_one_small_non_uniform,
  test_multiple, softbits_test_001_t, softbits_test_002_t,
}

convert_tests_pass : (convert_test_001_t ≡ ok tt) × (convert_test_002_t ≡ ok tt)
unfolding run_convert_test posted check_header check_bytes check_value check_pdu check_pdus deliver
    dict_ref field_eq hard_byte hard_bytes convert_message process_message ◌*ℤ◌
convert_tests_pass = (refl, refl)

queue_tests_pass :
    (test_eof ≡ ok tt)
    × (test_one_small ≡ ok tt)
    × (test_one_small_non_uniform ≡ ok tt)
    × (test_multiple ≡ ok tt)
unfolding run_queue_test posted_frames check_lengths check_slices sink_data run step queue_message
    shift_in shifted_bytes work
queue_tests_pass = (refl, refl, refl, refl)

abbrev floats_eq : List ℤ → List ℤ → Bool
floats_eq [] [] = true
floats_eq [] (y ∷ ys) = false
floats_eq (x ∷ xs) [] = false
floats_eq (x ∷ xs) (y ∷ ys) = elim (eq_ℤ x y) [ true ↦ floats_eq xs ys | false ↦ false ]

softbits_tests_pass :
    (softbits_test_001_t floats_eq ≡ ok tt) × (softbits_test_002_t floats_eq ≡ ok tt)
unfolding to_softbits byte_softbits ◌-ℤ◌
softbits_tests_pass = (refl, refl)

process_message-to_softbits_example :
    process_message
      (record { stopped = false })
      (pdu (("asm_number", whole (pos 3)) ∷ []) (floats (to_softbits (pos 4000) (7 ∷ 200 ∷ []))))
    ≡ (
      record { stopped = false },
      pdu (("asm_number", whole (pos 3)) ∷ []) (blob (7 ∷ 200 ∷ [])) ∷ [],
    )
process_message-to_softbits_example =
    process_message-to_softbits (pos 4000) (7 ∷ 200 ∷ []) (("asm_number", whole (pos 3)) ∷ [])
      (omega arith) (omega arith)

abbrev eight : List ℤ
eight = pos 0 ∷ negsuc 4 ∷ pos 7 ∷ pos 1 ∷ negsuc 0 ∷ negsuc 9 ∷ pos 2 ∷ negsuc 1 ∷ []

shifted_bytes-hard_bytes_example : shifted_bytes 1 eight ≡ hard_bytes 1 eight
shifted_bytes-hard_bytes_example = shifted_bytes-hard_bytes 1 eight (omega arith)

abbrev stream : List Message
stream =
    pdu [] (floats eight)
    ∷ pdu [] (floats (pos 0 ∷ []))
    ∷ no_pair
    ∷ eof
    ∷ pdu [] (floats eight)
    ∷ []

published-answers_example :
    published process_message (record { stopped = false }) stream ≡ answers stream
published-answers_example = published-answers stream

abbrev events : List Event
events =
    arrives (pdu [] (floats eight))
    ∷ room 3
    ∷ arrives (pdu [] (floats (pos 0 ∷ [])))
    ∷ arrives eof
    ∷ room 0
    ∷ []

run-fifo_example :
    (run empty_queue events).1 ++ (run empty_queue events).0.queue ≡ [] ++ arrived events
run-fifo_example = run-fifo empty_queue events

abbrev ending : BytesQueue
ending = record { queue = 1 ∷ 2 ∷ 3 ∷ []; stopped = true }

run-drains_example :
    ((run ending (replicate 2 (room 2))).1 ≡ 1 ∷ 2 ∷ 3 ∷ [])
    × ((work (run ending (replicate 2 (room 2))).0 2).1 ≡ none)
run-drains_example = run-drains 2 2 ending refl (omega arith)
