-- ===== src/Randomiser/Tests.antt =====
-- The tests of python/qa_randomiser.py, run on the model, and the theorems at inputs that meet their
-- hypotheses.
use gr_ccsds.Prelude.{[], ◌∷◌, ◌+◌, ◌<◌, ◌≡◌, ◌≢◌, refl, ok}
use gr_ccsds.Prelude.{Text, All, IsByte, length, arith, false}
use gr_ccsds.Prelude.BitLists.{bits_of, bits_in}
use gr_ccsds.Prelude.Sums.{add_bits}
use gr_ccsds.Randomiser.Noise.{noise, process_frame-noise}
use gr_ccsds.Pdu.Message.{deliver, pdu, blob}
use gr_ccsds.Pdu.Experiment.{numbered, judge, check_messages, check_message, frame_number, bytes_of}
use gr_ccsds.Pdu.Message.{dict_ref}
use gr_ccsds.Randomiser.Defs.{Randomiser, mask, collect, shift, parity, process_frame}
use gr_ccsds.Randomiser.Register.{state_after, state_after-period}
use gr_ccsds.Randomiser.Qa.{
  run_single_experiment, test_zero_in, test_one_in, test_chain_zeros, test_chain_ones,
  test_chain_random, run_chain_experiment-ok,
}

zero_in_passes : test_zero_in ≡ ok tt
unfolding run_single_experiment deliver numbered judge check_messages check_message frame_number
    bytes_of dict_ref mask collect shift parity process_frame
zero_in_passes = refl

one_in_passes : test_one_in ≡ ok tt
unfolding run_single_experiment deliver numbered judge check_messages check_message frame_number
    bytes_of dict_ref mask collect shift parity process_frame
one_in_passes = refl

chains_pass : (test_chain_zeros ≡ ok tt) × (test_chain_ones ≡ ok tt) × (test_chain_random ≡ ok tt)
chains_pass = (
  run_chain_experiment-ok _ 0x95 0xFF,
  run_chain_experiment-ok _ 0x95 0xFF,
  run_chain_experiment-ok _ 0x95 0xFF,
)

state_after-period_example :
    (state_after 0x95 (255 + 17) 0xFF ≡ state_after 0x95 17 0xFF)
    × (0 < 17 → 17 < 255 → state_after 0x95 17 0xFF ≢ 0xFF)
state_after-period_example = state_after-period 17

-- The sequence starts as the standard prints it.
standard-noise : noise 40 1 1 1 1 1 1 1 1 ≡ bits_in (0xFF ∷ 0x48 ∷ 0x0E ∷ 0xC0 ∷ 0x9A ∷ [])
unfolding noise bits_of
standard-noise = refl

-- A block whose register was left elsewhere by an earlier message.
abbrev used : Randomiser
used = record { poly = 0x95; seed = 0xFF; state = 0x3C; stopped = false }

process_frame-noise_example :
    (out : Text) × ((process_frame used (pdu [] (blob (7 ∷ 200 ∷ [])))).1 ≡ pdu [] (blob out) ∷ [])
    × (length out ≡ 2)
    × All IsByte out
    × (bits_in out ≡ add_bits (bits_in (7 ∷ 200 ∷ [])) (noise 16 1 1 1 1 1 1 1 1))
process_frame-noise_example = process_frame-noise used [] (7 ∷ 200 ∷ []) refl refl (omega arith)
