-- ===== src/ReverseBits/Tests.antt =====
-- The tests of python/qa_reversebits.py, run on the model, and the theorems at inputs that meet their
-- hypotheses.
use mathlib.Core.List.{flat_map}
use gr_ccsds.Prelude.{◌≡◌, refl, ◌↔◌, List, [], ◌∷◌, map, ok, arith}
use gr_ccsds.Pdu.Message.{Message, eof, no_pair, pdu, blob, deliver, published, dict_ref}
use gr_ccsds.Pdu.Experiment.{numbered, judge, check_messages, check_message, frame_number, bytes_of}
use gr_ccsds.Pdu.Accepts.{IsFront}
use gr_ccsds.ReverseBits.Defs.{make, reverse_rounds, reverse_positions, process_frame}
use gr_ccsds.ReverseBits.Laws.{
  mirrored, chosen, reverse_positions-mirrored, reverse_positions_twice,
}
use gr_ccsds.ReverseBits.Stream.{answer, published-mirrored}
use gr_ccsds.ReverseBits.Qa.{
  run_single_experiment, test_zero_in, test_ones_in, test_complete_sequence_in,
  test_partial_sequence_in, run_single_experiment-mirrored_iff,
}

tests_pass :
    (test_zero_in ≡ ok tt)
    × (test_ones_in ≡ ok tt)
    × (test_complete_sequence_in ≡ ok tt)
    × (test_partial_sequence_in ≡ ok tt)
unfolding run_single_experiment deliver numbered judge check_messages check_message frame_number
    bytes_of dict_ref reverse_rounds reverse_positions process_frame
tests_pass = (refl, refl, refl, refl)

reverse_positions-mirrored_example :
    reverse_positions 2 (1 ∷ 2 ∷ []) (1 ∷ 7 ∷ 1 ∷ []) (1 ∷ 2 ∷ [])
    ≡ mirrored (chosen (1 ∷ 7 ∷ 1 ∷ [])) 0 (1 ∷ 2 ∷ [])
reverse_positions-mirrored_example = reverse_positions-mirrored (1 ∷ 7 ∷ 1 ∷ []) (1 ∷ 2 ∷ [])

reverse_positions_twice_example :
    reverse_positions 2
      (reverse_positions 2 (1 ∷ 2 ∷ []) (1 ∷ 7 ∷ []) (1 ∷ 2 ∷ []))
      (1 ∷ 7 ∷ [])
      (reverse_positions 2 (1 ∷ 2 ∷ []) (1 ∷ 7 ∷ []) (1 ∷ 2 ∷ []))
    ≡ 1 ∷ 2 ∷ []
reverse_positions_twice_example = reverse_positions_twice (1 ∷ 7 ∷ []) (1 ∷ 2 ∷ []) (omega arith)

abbrev stream : List Message
stream = pdu [] (blob (7 ∷ [])) ∷ no_pair ∷ pdu [] (blob (9 ∷ 9 ∷ [])) ∷ eof ∷ []

published-mirrored_example :
    published process_frame (make 2 (0 ∷ [])) stream ≡ flat_map (answer 2 (0 ∷ [])) stream
published-mirrored_example = published-mirrored (make 2 (0 ∷ [])) stream

run_single_experiment-mirrored_iff_example :
    (run_single_experiment ((7 ∷ []) ∷ (8 ∷ []) ∷ []) ((224 ∷ []) ∷ []) (0 ∷ []) ≡ ok tt)
    ↔ IsFront ((224 ∷ []) ∷ []) (map (mirrored (chosen (0 ∷ [])) 0) ((7 ∷ []) ∷ (8 ∷ []) ∷ []))
run_single_experiment-mirrored_iff_example =
    run_single_experiment-mirrored_iff (7 ∷ []) ((8 ∷ []) ∷ []) ((224 ∷ []) ∷ []) (0 ∷ [])
      (refl, tt)
