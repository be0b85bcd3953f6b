-- ===== src/FrameSearch/Search.antt =====
-- lib/frame_sync_impl.cc: the search for the marker in the window, and the frames that are queued for it.
use gr_ccsds.Prelude.{
  ℕ, zero, suc, ◌+◌, ◌-◌, ◌*◌, Bool, true, false, not, ◌&&◌, ◌||◌, List, [], ◌∷◌, Result, ok, ◌>>=◌,
  ltb, if◌then◌else◌,
}
use gr_ccsds.SyncBuffer.Defs.{SyncBuffer, correlation_window}
use gr_ccsds.SyncBuffer.Queries.{energy_window_ptr}
use gr_ccsds.FrameSearch.Tasks.{Radio, AsmPosition, Config, FrameCopyTask, queue_frame_output}

module _ (R : Radio) where
  open R use {Float, dsp}

  -- The variables of the loop.
  pub record Best : Type 0 where
    pub initialized : Bool
    pub max_index : ℕ
    pub max_score : Float
    pub max_correlation : dsp.Correlation
    pub max_correlation_abs : Float

  abbrev pub first_best : Best
  first_best = record {
    initialized = false;
    max_index = 0;
    max_score = R.zero_float;
    max_correlation = dsp.no_correlation;
    max_correlation_abs = R.zero_float;
  }

module _ {R : Radio} where
  open R use {Float, dsp, is_finite, greater}

  -- The part of the loop behind the score, at index `i`.
  unfoldable pub update_best : ℕ → Float → dsp.Correlation → Best R → Best R
  update_best i score correlation m =
      let correlation_abs = R.abs correlation in
      let better_finite_score = is_finite score && greater score m.max_score in
      let both_scores_infinite = not (is_finite m.max_score) && not (is_finite score) in
      let infinite_scores_but_better_correlation =
        both_scores_infinite && greater correlation_abs m.max_correlation_abs in
      if not m.initialized || better_finite_score || infinite_scores_but_better_correlation
      then record {
        initialized = true;
        max_index = i;
        max_score = score;
        max_correlation = correlation;
        max_correlation_abs = correlation_abs;
      }
      else m

module _ (R : Radio) where
  open R use {Float, dsp}

  -- The score of the correlation at an index of the window, for the energies of the marker.
  unfoldable pub window_score : SyncBuffer dsp → List dsp.Energy → ℕ → Float
  window_score b energies i = R.less_energy (R.abs (correlation_window b i)) energies

  -- The loop, for `k` indices from `i` on.
  unfoldable pub find_loop : Config → SyncBuffer dsp → ℕ → ℕ → Best R → Result (Best R)
  find_loop c b i zero m = ok m
  find_loop c b i (suc k) m = do
    energies ← energy_window_ptr b i c.asm_len
    find_loop c b (i + 1) k
        (update_best {R = R} i (window_score b energies i) (correlation_window b i) m)

  -- findMaximumInBuffer(max_num_items), without the assertions
  unfoldable pub find_maximum : Config → SyncBuffer dsp → ℕ → Result AsmPosition
  find_maximum c b max_num_items = do
    m ← find_loop c b 0 max_num_items (first_best R)
    ok (record {
      offset = b.offset_counter + m.max_index;
      ambiguity = R.detect_ambiguity m.max_correlation;
      sequence = 0;
    })

-- The first loop over secondary frames, from the `i`-th on: the positions that it does not skip.
unfoldable pub positions_before : Config → AsmPosition → ℕ → ℕ → List AsmPosition
positions_before c frame i zero = []
positions_before c frame i (suc k) =
    let rest = positions_before c frame (i + 1) k in
    let earlier = record frame { offset = frame.offset - i * c.block_len } in
    if ltb frame.offset (i * c.block_len) then rest else earlier ∷ rest

-- The second loop.
unfoldable pub positions_after : Config → AsmPosition → ℕ → ℕ → List AsmPosition
positions_after c frame i zero = []
positions_after c frame i (suc k) =
    record frame { offset = frame.offset + i * c.block_len } ∷ positions_after c frame (i + 1) k

module _ {R : Radio} where
  open R use {dsp}

  unfoldable pub queue_secondary :
      Config → List AsmPosition → List (FrameCopyTask R) → Result (List (FrameCopyTask R))
  queue_secondary c [] queue = ok queue
  queue_secondary c (info ∷ infos) queue =
      queue_frame_output c info false queue >>= queue_secondary c infos

  -- processBuffer(last_indx): the queue and the number of the sequence after it
  unfoldable pub process_buffer :
      Config → SyncBuffer dsp → ℕ → List (FrameCopyTask R) → ℕ → Result (List (FrameCopyTask R) × ℕ)
  process_buffer c b last_indx queue sequence_number = do
    found ← find_maximum R c b last_indx
    let frame = record found { sequence = sequence_number + 1 }
    queue ← queue_frame_output c frame true queue
    queue ← queue_secondary c (positions_before c frame 1 c.frames_before) queue
    queue ← queue_secondary c (positions_after c frame 1 c.frames_after) queue
    ok (queue, sequence_number + 1)
