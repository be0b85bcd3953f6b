-- ===== src/FrameSearch/Tests.antt =====
-- The theorems on the search for frames at inputs that meet their hypotheses. Samples are numbers, the
-- correlation is their sum, and a symbol is its own soft bit.
use gr_ccsds.Prelude.{
  String, ◌=s=◌, if◌then◌else◌, ◌++◌, ℕ, ◌+◌, ◌≤◌, ◌≡◌, refl, true, List, [], ◌∷◌, ok, err,
  runtime_error, map, Returns, ◌↔◌, Result, ltb, arith, All,
}
use gr_ccsds.Prelude.Int.{pos}
use gr_ccsds.SyncBuffer.Defs.{Dsp, SyncBuffer, make, correlation_window}
use gr_ccsds.SyncBuffer.Defs.{read_signal, advance, write, fill, samples_at}
use gr_ccsds.SyncBuffer.Queries.{energy_window_ptr, snr}
use gr_ccsds.FrameSearch.Tasks.{Tags, Value, nil, is_queued, erase, queue_frame_output}
use gr_ccsds.FrameSearch.Process.{energies, process_task, process_frame_queue}
use gr_ccsds.FrameSearch.Search.{
  update_best, window_score, find_loop, find_maximum, positions_before, positions_after,
  queue_secondary, process_buffer,
}
use gr_ccsds.FrameSearch.Work.{
  Message, frame, eof, messages, buffer_lengths, make_frame_sync, on_full, work_round, work_loop,
  work, fill_up, flush, stop, run_works, stream_of,
}
use gr_ccsds.FrameSearch.Copied.{Copied}
use gr_ccsds.FrameSearch.Once.{count}
use gr_ccsds.FrameSearch.Sound.{Valid, Delivered}
use gr_ccsds.FrameSearch.Session.{
  silenced, session-headed, session-frames, session-once, run_works-Delivered,
}
use gr_ccsds.FrameSearch.Reached.{make_frame_sync-Ready}
use gr_ccsds.FrameSearch.Waits.{Waits, work-Waits}
use gr_ccsds.FrameSearch.Raises.{Heads, Queues, process_buffer-Returns_iff}
use gr_ccsds.FrameSearch.Maximum.{Compares, Leads, find_maximum-Leads}
use gr_ccsds.FrameSearch.Returns.{session-Returns, work_loop-ends}
use gr_ccsds.FrameSearch.Tasks.{Radio, AsmPosition, Config, FrameCopyTask}
use gr_ccsds.FrameSearch.Work.{FrameSync, session}

abbrev sum : List ℕ → ℕ
sum [] = 0
sum (x ∷ xs) = x + sum xs

abbrev numbers : Dsp
numbers = record {
  Sample = ℕ;
  Correlation = ℕ;
  Energy = ℕ;
  Snr = ℕ;
  silence = 0;
  no_correlation = 0;
  no_energy = 0;
  lowest_energy = 0;
  invalid_snr = 0;
  dot_product = sum;
  sample_energy = λ start stop offset n i x. x;
}

-- A dictionary is a list of its keys and values.
abbrev insert : List (String × Value ℕ) → String → Value ℕ → List (String × Value ℕ)
insert dict key value = (key, value) ∷ dict

abbrev lookup : List (String × Value ℕ) → String → Value ℕ
lookup [] key = nil
lookup ((k, v) ∷ dict) key = let rest = lookup dict key in if k =s= key then v else rest

abbrev radio : Radio
radio = record {
  dsp = numbers;
  Float = ℕ;
  Rotation = ℕ;
  Lut = ℕ;
  Estimator = ℕ;
  is_finite = λ x. true;
  greater = λ x y. ltb y x;
  zero_float = 0;
  abs = λ x. x;
  less_energy = λ x energies. x;
  detect_ambiguity = λ x. 0;
  amb_correction = λ a. a;
  rotate_symbol = λ x r. x + r;
  score = λ r x energies. x;
  correlation_pct = λ r x n. x;
  snr_db = λ i. 0;
  es_start = λ i. 0;
  es_slope = λ i. 0;
  n0_start = λ i. 0;
  n0_slope = λ i. 0;
  gen_soft_dec_lut = λ i n. 0;
  soft_decision_maker = λ lut x. x ∷ [];
  first_estimator = 0;
  update = λ e xs. e;
  get_snr = λ e. e;
  Dict = List (String × Value ℕ);
  make_dict = [];
  dict_add = insert;
  dict_ref = lookup;
  dict_update = λ old new. new ++ old;
}

-- Blocks of three symbols, two of which are the marker.
abbrev config : Config
config = record {
  block_len = 3;
  asm_len = 2;
  head_num_symbols = pos 0;
  output_num_symbols = 1;
  bits_per_symbol = 1;
  frames_before = 1;
  frames_after = 1;
}

abbrev samples : List ℕ
samples = 9 ∷ 9 ∷ 1 ∷ 9 ∷ 9 ∷ 2 ∷ 9 ∷ 9 ∷ 3 ∷ 9 ∷ 9 ∷ 4 ∷ []

abbrev calls : List (Tags radio × List ℕ)
calls = ([], samples) ∷ []

abbrev frames_of : Result (List (FrameCopyTask radio)) → List (FrameCopyTask radio)
frames_of (ok sent) = sent
frames_of (err e) = []

abbrev sent : List (FrameCopyTask radio)
sent = frames_of (session config [] calls)

config-Valid : Valid config
config-Valid = record { marker = omega arith; longer = omega arith }

abbrev payload : Message radio → List (List ℕ)
payload (frame header buffer) = buffer
payload eof = []

-- Four frames are found, the payload of each is published, and then the end of the stream.
sent_lem :
    map payload (messages sent)
    ≡ ((1 ∷ []) ∷ []) ∷ ((2 ∷ []) ∷ []) ∷ ((3 ∷ []) ∷ []) ∷ ((4 ∷ []) ∷ []) ∷ [] ∷ []
unfolding session make_frame_sync run_works work work_loop work_round on_full stop fill_up flush
    process_frame_queue process_task queue_secondary queue_frame_output process_buffer
    positions_before positions_after find_maximum find_loop update_best window_score
    energy_window_ptr read_signal advance write fill samples_at snr is_queued erase energies
sent_lem = refl

session-sent : session config [] calls ≡ ok sent
unfolding session make_frame_sync run_works work work_loop work_round on_full stop fill_up flush
    process_frame_queue process_task queue_secondary queue_frame_output process_buffer
    positions_before positions_after find_maximum find_loop update_best window_score
    energy_window_ptr read_signal advance write fill samples_at snr is_queued erase energies
session-sent = refl

session-frames_example : All (Copied config (silenced numbers config (stream_of calls))) sent
session-frames_example = session-frames config [] calls sent config-Valid session-sent

session-once_example : count (record { offset = 3; ambiguity = 0; sequence = 0 }) sent ≤ 1
session-once_example =
    session-once config [] calls sent (record { offset = 3; ambiguity = 0; sequence = 0 })
      config-Valid session-sent

session-Returns_example : Returns (session {R = radio} config [] calls)
session-Returns_example = session-Returns config config-Valid refl [] calls

session-headed_example : All (λ (t : FrameCopyTask radio). t.header_computed ≡ true) sent
session-headed_example =
    session-headed config [] calls sent config-Valid refl (omega arith) session-sent

-- The block after its constructor, and after one call of work().
abbrev block_of : Result (FrameSync radio) → FrameSync radio
block_of (ok s) = s
block_of (err e) = record {
  buffer = make numbers (buffer_lengths config);
  frame_queue = [];
  sequence_number = 0;
  snr_est = 0;
  extra_tags = [];
  nitems_read = 0;
}

abbrev start : FrameSync radio
start = block_of (make_frame_sync config [])

start-made : make_frame_sync config [] ≡ ok start
unfolding make_frame_sync queue_secondary
start-made = refl

abbrev results_of :
    FrameSync radio
    → Result (FrameSync radio × List (FrameCopyTask radio))
    → FrameSync radio × List (FrameCopyTask radio)
results_of s (ok r) = r
results_of s (err e) = (s, [])

abbrev worked : FrameSync radio × List (FrameCopyTask radio)
worked = results_of start (run_works config start calls)

start-worked : run_works config start calls ≡ ok worked
unfolding make_frame_sync run_works work work_loop work_round on_full process_frame_queue
    process_task queue_secondary queue_frame_output process_buffer positions_before positions_after
    find_maximum find_loop update_best window_score energy_window_ptr read_signal advance write fill
    samples_at snr is_queued erase energies
start-worked = refl

run_works-Delivered_example : All (Delivered config (stream_of calls)) worked.1
run_works-Delivered_example =
    run_works-Delivered config [] calls start worked config-Valid start-made start-worked

work_loop-ends_example :
    (r : FrameSync radio × List (FrameCopyTask radio) × List ℕ) × (work_loop 12 config start samples
      ≡ ok r)
    × (r.2 ≡ [])
work_loop-ends_example =
    work_loop-ends config config-Valid refl [] [] start samples
      (make_frame_sync-Ready config [] start config-Valid start-made)

radio-Compares : Compares radio
radio-Compares = record {
  asymmetric = λ x y e. ground (arith, e);
  transitive = λ x y z fx fy fz e f. ground (arith, e, f);
}

-- The window of the block when it has read two frames is full again.
abbrev window : SyncBuffer numbers
window = record {
  lengths = buffer_lengths config;
  snr_tags = 0 ∷ 0 ∷ 0 ∷ [];
  signal = 9 ∷ 9 ∷ 1 ∷ 8 ∷ 9 ∷ 9 ∷ 2 ∷ [];
  correlation = 18 ∷ 10 ∷ 9 ∷ 17 ∷ 18 ∷ 11 ∷ [];
  energy = 0 ∷ 0 ∷ 0 ∷ 0 ∷ 0 ∷ 0 ∷ 0 ∷ [];
  num_items = 7;
  offset_counter = 3;
}

abbrev found : AsmPosition
found = record { offset = 4; ambiguity = 0; sequence = 0 }

found_lem : find_maximum radio config window 3 ≡ ok found
unfolding find_maximum find_loop update_best window_score energy_window_ptr samples_at
found_lem = refl

find_maximum-Leads_example :
    (k : ℕ) × Leads config window radio-Compares 3 k
    × (found.offset ≡ window.offset_counter + k)
    × (found.ambiguity ≡ radio.detect_ambiguity (correlation_window window k))
find_maximum-Leads_example =
    find_maximum-Leads config window radio-Compares 3 (λ i lt. refl) found (omega arith) found_lem

-- A head of two symbols.
abbrev headed : Config
headed = record config { head_num_symbols = pos 2 }

headed-found : find_maximum radio headed window 3 ≡ ok found
unfolding find_maximum find_loop update_best window_score energy_window_ptr samples_at
headed-found = refl

process_buffer-Returns_iff_example :
    (Returns (process_buffer {R = radio} headed window 3 [] 0)
      ↔ Heads headed (record found { sequence = 1 }))
    × (Queues {R = radio} headed
          (record found { sequence = 1 })
          []
          0
          (process_buffer {R = radio} headed window 3 [] 0)
        ↔ Heads headed (record found { sequence = 1 }))
process_buffer-Returns_iff_example =
    process_buffer-Returns_iff headed window 3 [] 0 found headed-found

-- The head of the frame before would begin before the stream.
process_buffer_raises : process_buffer {R = radio} headed window 3 [] 0 ≡ err runtime_error
unfolding process_buffer find_maximum find_loop update_best window_score energy_window_ptr
    samples_at queue_frame_output queue_secondary positions_before is_queued
process_buffer_raises = refl

abbrev once_worked : FrameSync radio × List (FrameCopyTask radio)
once_worked = results_of start (work config start [] samples)

start-once_worked : work config start [] samples ≡ ok once_worked
unfolding make_frame_sync work work_loop work_round on_full process_frame_queue process_task
    queue_secondary queue_frame_output process_buffer positions_before positions_after find_maximum
    find_loop update_best window_score energy_window_ptr read_signal advance write fill samples_at
    snr is_queued erase energies
start-once_worked = refl

work-Waits_example : All (Waits config samples) once_worked.0.frame_queue
work-Waits_example =
    work-Waits config [] [] start [] samples once_worked config-Valid (omega arith)
      start-once_worked (make_frame_sync-Ready config [] start config-Valid start-made)
