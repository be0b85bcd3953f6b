-- ===== src/SyncBuffer/Tests.antt =====
-- The theorems on the buffer at inputs that meet their hypotheses. The samples are numbers, and the
-- correlation is their sum.
use gr_ccsds.Prelude.{ℕ, ◌+◌, ◌-◌, ◌≡◌, refl, List, [], ◌∷◌, ok, get_or, arith}
use gr_ccsds.SyncBuffer.Defs.{
  Dsp, Lengths, SyncBuffer, make, signal_at, correlation_at, correlation_window, write, fill,
  samples_at, advance, read_signal, Operation, reads, advances, step, run,
}
use gr_ccsds.SyncBuffer.Window.{run-window, run-correlation}
use gr_ccsds.SyncBuffer.Stale.{read_signal-last_correlation}

abbrev sum : List ℕ → ℕ
sum [] = 0
sum (x ∷ xs) = x + sum xs

abbrev numbers : Dsp
numbers = record {
  Sample = ℕ;
  Correlation = ℕ;
  Energy = ℕ;
  Snr = ℕ;
  silence = 0;
  no_correlation = 0;
  no_energy = 0;
  lowest_energy = 0;
  invalid_snr = 0;
  dot_product = sum;
  sample_energy = λ start stop offset n i x. x;
}

-- Blocks of three samples, a marker of two, one block of history and a head of one sample.
abbrev lengths : Lengths
lengths = record { block_len = 3; asm_len = 2; history_frames = 1; head_len = 1 }

abbrev operations : List (Operation numbers)
operations =
    reads (10 ∷ 11 ∷ []) 1 ∷ reads (12 ∷ 13 ∷ 14 ∷ []) 1 ∷ advances ∷ reads (14 ∷ 15 ∷ []) 1 ∷ []

abbrev buffer : SyncBuffer numbers
buffer = record {
  lengths = lengths;
  snr_tags = 0 ∷ 1 ∷ 1 ∷ [];
  signal = 0 ∷ 10 ∷ 11 ∷ 12 ∷ 13 ∷ 14 ∷ 15 ∷ 0 ∷ [];
  correlation = 10 ∷ 21 ∷ 23 ∷ 25 ∷ 27 ∷ 0 ∷ 0 ∷ [];
  energy = 0 ∷ 10 ∷ 11 ∷ 12 ∷ 13 ∷ 14 ∷ 15 ∷ 0 ∷ [];
  num_items = 7;
  offset_counter = 3;
}

buffer_lem : run (make numbers lengths) operations ≡ ok (buffer, 10 ∷ 11 ∷ 12 ∷ 13 ∷ 14 ∷ 15 ∷ [])
unfolding run step read_signal advance write fill samples_at
buffer_lem = refl

run-window_example : signal_at buffer 4 ≡ get_or (10 ∷ 11 ∷ 12 ∷ 13 ∷ 14 ∷ 15 ∷ []) 4 0
run-window_example =
    run-window lengths operations buffer (10 ∷ 11 ∷ 12 ∷ 13 ∷ 14 ∷ 15 ∷ []) 4 (omega arith)
      buffer_lem (omega arith) (omega arith)

run-correlation_example :
    correlation_at buffer 3 ≡ sum (samples_at 0 3 2 (10 ∷ 11 ∷ 12 ∷ 13 ∷ 14 ∷ 15 ∷ []))
run-correlation_example =
    run-correlation lengths operations buffer (10 ∷ 11 ∷ 12 ∷ 13 ∷ 14 ∷ 15 ∷ []) 3 (omega arith)
      buffer_lem (omega arith) (omega arith)

read_signal-last_correlation_example :
    correlation_window (read_signal buffer (16 ∷ []) 1).0 (3 - 1)
    ≡ correlation_window buffer (3 - 1)
read_signal-last_correlation_example =
    read_signal-last_correlation buffer (16 ∷ []) 1 (omega arith) (omega arith) (omega arith)
