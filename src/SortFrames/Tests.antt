-- ===== src/SortFrames/Tests.antt =====
-- The tests of python/qa_sort_frames.py, run on the model, and the theorems at inputs that meet their
-- hypotheses.
use mathlib.Core.List.{flat_map}
use gr_ccsds.Prelude.{
  ℕ, ◌+◌, ◌-◌, ◌≡◌, refl, Bool, true, false, some, List, [], ◌∷◌, ◌++◌, All, ok, arith,
}
use gr_ccsds.Prelude.Int.{◌*ℤ◌, pos}
use gr_ccsds.Pdu.Message.{dict_ref, Message, eof}
use gr_ccsds.SortFrames.Storage.{WellFormed}
use gr_ccsds.SortFrames.Flush.{from, flush_frames_lem}
use gr_ccsds.SortFrames.Invariant.{Sound, store_frames-Sound}
use gr_ccsds.SortFrames.Sorting.{IsEarly}
use gr_ccsds.SortFrames.Best.{of_number}
use gr_ccsds.SortFrames.Late.{next_frame-sends_current}
use gr_ccsds.SortFrames.Order.{BestOf, store_frames-stable, store_frames-best}
use gr_ccsds.SortFrames.Defs.{
  Config, SortFrames, make_config, make, no_duplicates, get_duplicates, slot_index,
  get_frame_number, get_frame_score, send_frame, advance_storage, send_frames, flush_frames,
  next_frame, advance, keep, store_numbered, store_frame, store_frames,
}
use gr_ccsds.SortFrames.Qa.{
  frame, field_eq, keys_within, compare_entries, compare_headers, compare_items, compare_payload,
  compare_message, compare_messages, split_last, frames_computed, run_test,
}
use gr_ccsds.SortFrames.Cases.{
  test_001_t, test_002_t, test_003_t, test_004_t, test_005_replaced, test_005_t, test_006_t,
  test_007_t, test_008_t, test_009_t,
}

tests_pass :
    (test_001_t ≡ ok tt)
    × (test_002_t ≡ ok tt)
    × (test_003_t ≡ ok tt)
    × (test_004_t ≡ ok tt)
    × (test_005_replaced ≡ ok tt)
    × (test_005_t ≡ ok tt)
    × (test_006_t ≡ ok tt)
    × (test_007_t ≡ ok tt)
    × (test_008_t ≡ ok tt)
    × (test_009_t ≡ ok tt)
unfolding dict_ref slot_index get_frame_number get_frame_score send_frame advance_storage
    send_frames flush_frames next_frame advance keep store_numbered store_frame store_frames
    field_eq keys_within compare_entries compare_headers compare_items compare_payload
    compare_message compare_messages split_last frames_computed run_test ◌*ℤ◌
tests_pass = (refl, refl, refl, refl, refl, refl, refl, refl, refl, refl)

-- A window of four slots, and three frames out of order, two of them of one number.
abbrev small : Bool → Config
small allow = make_config 4 allow "asm_number" "asm_score" true

abbrev early_frames : List Message
early_frames = frame (1 ∷ []) 2 500 ∷ frame (2 ∷ []) 0 500 ∷ frame (3 ∷ []) 2 1500 ∷ []

early_frames-IsEarly : (allow : Bool) → All (IsEarly (small allow)) early_frames
unfolding dict_ref get_frame_number get_frame_score ◌*ℤ◌
early_frames-IsEarly allow = (
  (2, some (pos 500), refl, refl, refl, omega arith),
  (
    (0, some (pos 500), refl, refl, refl, omega arith),
    ((2, some (pos 1500), refl, refl, refl, omega arith), tt),
  ),
)

store_frames-stable_example :
    (t : SortFrames) × (store_frames (make (small true)) (early_frames ++ eof ∷ [])
      ≡ ok (t, flat_map (λ n. of_number (small true) n early_frames) (from 0 4) ++ eof ∷ []))
store_frames-stable_example =
    store_frames-stable (small true) early_frames (omega arith) (omega arith) refl
      (early_frames-IsEarly true)

store_frames-best_example :
    (t : SortFrames) × (sent : ℕ → List Message) × (store_frames
        (make (small false))
        (early_frames ++ eof ∷ [])
      ≡ ok (t, flat_map sent (from 0 4) ++ eof ∷ []))
    × ((n : ℕ) → BestOf (small false) (of_number (small false) n early_frames) (sent n))
store_frames-best_example =
    store_frames-best (small false) "asm_score" early_frames (omega arith) (omega arith) refl refl
      (early_frames-IsEarly false)

-- Three frames in a window of two slots, one of them a duplicate.
abbrev few : List Message
few = frame (1 ∷ []) 0 500 ∷ frame (2 ∷ []) 1 500 ∷ frame (3 ∷ []) 1 1500 ∷ []

abbrev pair : Config
pair = make_config 2 false "asm_number" "asm_score" true

abbrev after_few : SortFrames
after_few = record {
  config = pair;
  current_frame = 1;
  frame_storage =
      record { frames = frame (3 ∷ []) 1 1500 ∷ []; best_index = 0; best_value = pos 1500 }
      ∷ record { frames = frame (1 ∷ []) 0 500 ∷ []; best_index = 0; best_value = pos 500 }
      ∷ [];
  storage_offset = 0;
  stopped = false;
  flushed = false;
}

after_few_lem : store_frames (make pair) few ≡ ok (after_few, [])
unfolding dict_ref slot_index get_frame_number get_frame_score send_frame advance_storage next_frame
    advance keep store_numbered store_frame store_frames ◌*ℤ◌
after_few_lem = refl

store_frames-Sound_example : Sound after_few
store_frames-Sound_example = store_frames-Sound pair few after_few [] (omega arith) after_few_lem

-- A window of three slots, all full.
abbrev full : SortFrames
full = record {
  config = make_config 3 true "asm_number" "" true;
  current_frame = 4;
  frame_storage =
      record { frames = frame (2 ∷ []) 2 0 ∷ []; best_index = 0; best_value = pos 0 }
      ∷ record { frames = frame (3 ∷ []) 3 0 ∷ []; best_index = 0; best_value = pos 0 }
      ∷ record { frames = frame (4 ∷ []) 4 0 ∷ []; best_index = 0; best_value = pos 0 }
      ∷ [];
  storage_offset = 2;
  stopped = false;
  flushed = false;
}

full-WellFormed : WellFormed full
full-WellFormed = record { whole = refl; inside = omega arith }

flush_frames_lem_example :
    ((flush_frames full).1
      ≡ flat_map (λ n. (get_duplicates full n).frames) (from (4 + 1 - 3) (4 + 1 - (4 + 1 - 3))))
    × ((flush_frames (flush_frames full).0).1 ≡ [])
flush_frames_lem_example = flush_frames_lem full full-WellFormed (omega arith)

next_frame-sends_current_example :
    ((next_frame full).1 ≡ (get_duplicates full 4).frames)
    × ((get_duplicates (next_frame full).0 4).frames ≡ [])
    × (get_duplicates (next_frame full).0 5 ≡ no_duplicates)
    × (get_duplicates (next_frame full).0 3 ≡ get_duplicates full 3)
next_frame-sends_current_example =
    next_frame-sends_current full 3 full-WellFormed (omega arith) (omega arith) (omega arith)
