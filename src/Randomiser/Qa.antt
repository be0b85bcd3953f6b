-- ===== src/Randomiser/Qa.antt =====
-- python/qa_randomiser.py: the two experiments, and its tests.
use mathlib.Core.Path.{ap₂}
use gr_ccsds.Prelude.{
  ℕ, ◌≡◌, refl, sym, ◌↔◌, List, [], ◌∷◌, map, Text, Result, ok, length, replicate, length-map,
}
use gr_ccsds.Pdu.Message.{published}
use gr_ccsds.Pdu.Experiment.{numbered, judge}
use gr_ccsds.Pdu.Accepts.{IsFront, judge_iff}
use gr_ccsds.Randomiser.Defs.{make, mask, process_frame}
use gr_ccsds.Randomiser.Mask.{mask_twice, published-numbered}
use gr_ccsds.Randomiser.Messages.{random_messages}

-- runSingleExperiment(messages_in, messages_out_exp, poly, seed)
unfoldable pub run_single_experiment : List Text → List Text → ℕ → ℕ → Result (Unit {0})
run_single_experiment messages_in messages_out_exp poly seed =
    judge (length messages_in) messages_out_exp
      (published process_frame (make poly seed) (numbered 0 messages_in))

-- runChainExperiment(messages_in, poly, seed)
unfoldable pub run_chain_experiment : List Text → ℕ → ℕ → Result (Unit {0})
run_chain_experiment messages_in poly seed =
    let randomised = published process_frame (make poly seed) (numbered 0 messages_in) in
    judge (length messages_in) messages_in (published process_frame (make poly seed) randomised)

-- The tests.
abbrev pub test_zero_in : Result (Unit {0})
test_zero_in =
    run_single_experiment ((0x00 ∷ 0x00 ∷ 0x00 ∷ 0x00 ∷ 0x00 ∷ []) ∷ [])
      ((0xFF ∷ 0x48 ∷ 0x0E ∷ 0xC0 ∷ 0x9A ∷ []) ∷ []) 0x95 0xFF

abbrev pub test_one_in : Result (Unit {0})
test_one_in =
    run_single_experiment ((0xFF ∷ 0xFF ∷ 0xFF ∷ 0xFF ∷ 0xFF ∷ []) ∷ [])
      ((0x00 ∷ 0xB7 ∷ 0xF1 ∷ 0x3F ∷ 0x65 ∷ []) ∷ []) 0x95 0xFF

abbrev pub test_chain_zeros : Result (Unit {0})
test_chain_zeros =
    run_chain_experiment (replicate 5 (0x00 ∷ 0x00 ∷ 0x00 ∷ 0x00 ∷ 0x00 ∷ [])) 0x95 0xFF

abbrev pub test_chain_ones : Result (Unit {0})
test_chain_ones =
    run_chain_experiment (replicate 10 (0xFF ∷ 0xFF ∷ 0xFF ∷ 0xFF ∷ 0xFF ∷ [])) 0x95 0xFF

abbrev pub test_chain_random : Result (Unit {0})
test_chain_random = run_chain_experiment random_messages 0x95 0xFF

-- The single experiment succeeds exactly when the expected messages are the masked input messages, or
-- the first few of them: it does not notice expected messages that are left out.
pub run_single_experiment_iff :
    (ms es : List Text) (poly seed : ℕ)
    → (run_single_experiment ms es poly seed ≡ ok tt)
      ↔ IsFront es (map (λ s. (mask poly seed s).0) ms)
unfolding run_single_experiment
run_single_experiment_iff ms es poly seed =
    let masked = map (λ s. (mask poly seed s).0) ms in
    rw (published-numbered (make poly seed) ms, sym (length-map ms (λ s. (mask poly seed s).0)))
      (judge_iff es masked)

map_twice : (f : Text → Text) (ms : List Text) → ((s : Text) → f (f s) ≡ s) → map f (map f ms) ≡ ms
map_twice f [] h = refl
map_twice f (m ∷ ms) h = ap₂ ◌∷◌ (h m) (map_twice f ms h)

IsFront-refl : (ms : List Text) → IsFront ms ms
IsFront-refl [] = tt
IsFront-refl (m ∷ ms) = (refl, IsFront-refl ms)

-- The chain experiment succeeds on whatever messages, for every polynomial and seed: the second
-- randomiser gives back what the first was given.
pub run_chain_experiment-ok :
    (ms : List Text) (poly seed : ℕ) → run_chain_experiment ms poly seed ≡ ok tt
unfolding run_chain_experiment
run_chain_experiment-ok ms poly seed =
    let masked = map (λ s. (mask poly seed s).0) ms in
    let back = map_twice (λ s. (mask poly seed s).0) ms (mask_twice poly seed) in
    rw (published-numbered (make poly seed) ms, published-numbered (make poly seed) masked, back)
      ((judge_iff ms ms).1 (IsFront-refl ms))
