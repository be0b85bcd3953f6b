-- ===== src/ReverseBits/Qa.antt =====
-- python/qa_reversebits.py: the experiment, and its tests.
use gr_ccsds.Prelude.{
  ℕ, ◌≡◌, refl, sym, ◌↔◌, List, [], ◌∷◌, map, Text, All, Result, ok, length, length-map, get_elem?,
  or_raise, index_error, ◌>>=◌,
}
use gr_ccsds.Pdu.Message.{published}
use gr_ccsds.Pdu.Experiment.{numbered, judge}
use gr_ccsds.Pdu.Accepts.{IsFront, judge_iff}
use gr_ccsds.ReverseBits.Defs.{make, process_frame}
use gr_ccsds.ReverseBits.Laws.{mirrored, chosen}
use gr_ccsds.ReverseBits.Stream.{published-numbered}

-- runSingleExperiment(messages_in, messages_out_exp, indices). The block is made for the length of the
-- first message.
unfoldable pub run_single_experiment : List Text → List Text → List ℕ → Result (Unit {0})
run_single_experiment messages_in messages_out_exp indices = do
  first ← or_raise index_error (get_elem? messages_in 0)
  judge (length messages_in) messages_out_exp
      (published process_frame (make (length first) indices) (numbered 0 messages_in))

-- The tests.
abbrev pub test_zero_in : Result (Unit {0})
test_zero_in =
    run_single_experiment ((0x00 ∷ 0x00 ∷ 0x00 ∷ 0x00 ∷ 0x00 ∷ []) ∷ [])
      ((0x00 ∷ 0x00 ∷ 0x00 ∷ 0x00 ∷ 0x00 ∷ []) ∷ []) (0 ∷ 1 ∷ [])

abbrev pub test_ones_in : Result (Unit {0})
test_ones_in = run_single_experiment ((0xFF ∷ 0xFF ∷ []) ∷ []) ((0xFF ∷ 0xFF ∷ []) ∷ []) (0 ∷ [])

abbrev pub test_complete_sequence_in : Result (Unit {0})
test_complete_sequence_in =
    let message = 0x00 ∷ 0x01 ∷ 0x02 ∷ 0x0F ∷ 0xF0 ∷ 0xAA ∷ 0x42 ∷ [] in
    let expected = 0x00 ∷ 0x80 ∷ 0x40 ∷ 0xF0 ∷ 0x0F ∷ 0x55 ∷ 0x42 ∷ [] in
    run_single_experiment (message ∷ message ∷ []) (expected ∷ expected ∷ [])
      (0 ∷ 1 ∷ 2 ∷ 3 ∷ 4 ∷ 5 ∷ 6 ∷ [])

abbrev pub test_partial_sequence_in : Result (Unit {0})
test_partial_sequence_in =
    let message = 0x00 ∷ 0x01 ∷ 0x02 ∷ 0x0F ∷ 0xF0 ∷ 0xAA ∷ 0x42 ∷ [] in
    let expected = 0x00 ∷ 0x80 ∷ 0x40 ∷ 0x0F ∷ 0x0F ∷ 0x55 ∷ 0x42 ∷ [] in
    run_single_experiment (message ∷ message ∷ []) (expected ∷ expected ∷ [])
      (0 ∷ 1 ∷ 2 ∷ 4 ∷ 5 ∷ [])

-- Where all messages are as long as the first one, the experiment succeeds exactly when the expected
-- messages are those put in, or the first few of them, with the bytes at the indices turned around.
pub run_single_experiment-mirrored_iff :
    (m : Text) (ms es : List Text) (indices : List ℕ)
    → All (λ s. length s ≡ length m) ms
    → (run_single_experiment (m ∷ ms) es indices ≡ ok tt)
      ↔ IsFront es (map (mirrored (chosen indices) 0) (m ∷ ms))
unfolding run_single_experiment
run_single_experiment-mirrored_iff m ms es indices h =
    let turned = map (mirrored (chosen indices) 0) (m ∷ ms) in
    rw
      (
        published-numbered (make (length m) indices) (m ∷ ms) (refl, h),
        sym (length-map (m ∷ ms) (mirrored (chosen indices) 0)),
      )
      (judge_iff es turned)
