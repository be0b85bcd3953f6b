-- ===== src/SortFrames/Defs.antt =====
-- lib/sort_frames_impl.cc: frames are held back in a ring of slots and sent in the order of their
-- numbers. A frame number is an unsigned number of 64 bits; a score is a double, of which only the order
-- is used: it stands in thousandths. The assertions are not part of the definitions, and a window of no
-- slots, for which the code divides by zero, is left to the theorems' hypotheses.
use gr_ccsds.Prelude.{
  ℕ, zero, suc, ◌+◌, ◌-◌, ◌%◌, ◌^◌, Option, none, some, Bool, true, false, not, ◌&&◌, List, [], ◌∷◌,
  ◌++◌, String, ◌=s=◌, Result, ok, err, runtime_error, ◌>>=◌, length, get_or, set, replicate, leb,
  if◌then◌else◌,
}
use gr_ccsds.Prelude.Int.{ℤ, pos, negsuc, ltb_ℤ, ◌*ℤ◌}
use gr_ccsds.Pdu.Message.{
  Field, whole, thousandths, flag, word, Header, Message, eof, no_pair, no_dict, pdu, dict_ref,
}

pub record Config : Type 0 where
  pub window : ℕ
  pub allow_duplicates : Bool
  pub sort_field : String
  -- none where d_HAS_SCORE_FIELD is false
  pub score_field : Option String
  pub sort_ascending : Bool

-- frame_duplicates_t
pub record Duplicates : Type 0 where
  pub frames : List Message
  pub best_index : ℕ
  pub best_value : ℤ

abbrev pub no_duplicates : Duplicates
no_duplicates = record { frames = []; best_index = 0; best_value = pos 0 }

pub record SortFrames : Type 0 where
  pub config : Config
  pub current_frame : ℕ
  pub frame_storage : List Duplicates
  pub storage_offset : ℕ
  pub stopped : Bool
  pub flushed : Bool

abbrev pub make_config : ℕ → Bool → String → String → Bool → Config
make_config window allow_duplicates sort_field score_field pick_highest_score = record {
  window = window;
  allow_duplicates = allow_duplicates;
  sort_field = sort_field;
  score_field = if score_field =s= "" then none else some score_field;
  sort_ascending = pick_highest_score;
}

abbrev pub make : Config → SortFrames
make c = record {
  config = c;
  current_frame = 0;
  frame_storage = replicate c.window no_duplicates;
  storage_offset = c.window - 1;
  stopped = false;
  flushed = false;
}

-- The slot of the frame that is `diff` before the current one.
unfoldable pub slot_index : ℕ → ℕ → ℕ → ℕ
slot_index window offset diff = (window + offset - diff) % window

-- get_duplicates(frame_number): where it stands, and what stands there
abbrev pub index_of : SortFrames → ℕ → ℕ
index_of s n = slot_index s.config.window s.storage_offset (s.current_frame - n)

abbrev pub get_duplicates : SortFrames → ℕ → Duplicates
get_duplicates s n = get_or s.frame_storage (index_of s n) no_duplicates

abbrev pub put_duplicates : SortFrames → ℕ → Duplicates → SortFrames
put_duplicates s n d = record s { frame_storage = set s.frame_storage (index_of s n) d }

-- to_uint64 of the field, which raises for a value of another type
unfoldable pub get_frame_number : Config → Header → Result (Option ℕ)
get_frame_number c h = elim (dict_ref h c.sort_field) [
  | none ↦ ok none
  | some v ↦ elim v [
    | whole n ↦ elim n [ pos k ↦ ok (some k) | negsuc k ↦ err runtime_error ]
    | _ ↦ err runtime_error
  ]
]

-- to_double of the field
abbrev pub to_double : Field → Result ℤ
to_double (whole n) = ok (n *ℤ pos 1000)
to_double (thousandths n) = ok n
to_double (flag b) = err runtime_error
to_double (word s) = err runtime_error

unfoldable pub get_frame_score : Config → Header → Result (Option ℤ)
get_frame_score c h = elim c.score_field [
  | none ↦ ok none
  | some f ↦ elim (dict_ref h f) [ none ↦ ok none | some v ↦ to_double v >>= λ x. ok (some x) ]
]

abbrev pub value_or_zero : Option ℤ → ℤ
value_or_zero none = pos 0
value_or_zero (some x) = x

-- send_frame(frame_number)
unfoldable pub send_frame : SortFrames → ℕ → SortFrames × List Message
send_frame s n =
    let dups = get_duplicates s n in (put_duplicates s n (record dups { frames = [] }), dups.frames)

unfoldable pub advance_storage : SortFrames → SortFrames
advance_storage s =
    let new_offset = (s.storage_offset + 1) % s.config.window in
    record s {
      frame_storage = set s.frame_storage new_offset no_duplicates;
      storage_offset = new_offset;
    }

-- send_frame for `k` frames, from number `i` on
unfoldable pub send_frames : ℕ → ℕ → SortFrames → SortFrames × List Message
send_frames zero i s = (s, [])
send_frames (suc k) i s =
    let (s', out) = send_frame s i in
    let (s'', rest) = send_frames k (i + 1) s' in (s'', out ++ rest)

unfoldable pub flush_frames : SortFrames → SortFrames × List Message
flush_frames s =
    let first = (s.current_frame + 1) % 2 ^ 64 - s.config.window in
    let (s', out) = send_frames (s.current_frame + 1 - first) first s in
    (record s' { flushed = true }, out)

-- One round of the loop that moves the window.
unfoldable pub next_frame : SortFrames → SortFrames × List Message
next_frame s =
    let (s', out) =
      if leb s.config.window s.current_frame
      then send_frame s (s.current_frame - s.config.window)
      else (s, []) in
    (record (advance_storage s') { current_frame = s.current_frame + 1 }, out)

-- The loop: as many rounds as the current frame is behind.
unfoldable pub advance : ℕ → SortFrames → SortFrames × List Message
advance zero s = (s, [])
advance (suc k) s =
    let (s', out) = next_frame s in let (s'', rest) = advance k s' in (s'', out ++ rest)

-- Where there are duplicates already: whether the frame is better.
abbrev pub is_better : Config → Option ℤ → ℤ → Bool
is_better c score best = elim c.score_field [
  | none ↦ c.sort_ascending
  | some f ↦
      if c.sort_ascending
      then ltb_ℤ best (value_or_zero score)
      else ltb_ℤ (value_or_zero score) best
]

-- What is kept of a frame and the frames of the same number.
unfoldable pub keep : Config → Message → Option ℤ → Duplicates → Duplicates
keep c frame score dups = elim dups.frames [
  | [] ↦ record { frames = frame ∷ []; best_index = 0; best_value = value_or_zero score }
  | first ∷ others ↦
      let better = is_better c score dups.best_value in
      if c.allow_duplicates
      then record {
        frames = dups.frames ++ frame ∷ [];
        best_index = if better then length dups.frames else dups.best_index;
        best_value = if better then value_or_zero score else dups.best_value;
      }
      else if better
      then record { frames = frame ∷ others; best_index = 0; best_value = value_or_zero score }
      else dups
]

-- A frame with its number and score.
unfoldable pub store_numbered : SortFrames → Message → ℕ → Option ℤ → SortFrames × List Message
store_numbered s frame n score =
    let (s', out) = advance (n - s.current_frame) s in
    if leb ((n + s.config.window) % 2 ^ 64) s.current_frame
    then (s, [])
    else (put_duplicates s' n (keep s.config frame score (get_duplicates s' n)), out)

abbrev pub lacks_score : Config → Option ℤ → Bool
lacks_score c (some x) = false
lacks_score c none = elim c.score_field [ none ↦ false | some f ↦ true ]

-- store_frame(frame), the handler of messages: the state after it, and what it publishes.
unfoldable pub store_frame : SortFrames → Message → Result (SortFrames × List Message)
store_frame s eof =
    let (s', out) = flush_frames s in ok (record s' { stopped = true }, out ++ eof ∷ [])
store_frame s no_pair = ok (s, [])
store_frame s (no_dict p) = ok (s, [])
store_frame s (pdu h p) = do
  number ← get_frame_number s.config h
  score ← get_frame_score s.config h
  elim number [
    | none ↦ ok (s, [])
    | some n ↦
        if lacks_score s.config score then ok (s, []) else ok (store_numbered s (pdu h p) n score)
  ]

abbrev pub stop : SortFrames → SortFrames
stop s = record s { stopped = true }

-- work(): whether it is done
unfoldable pub work : SortFrames → SortFrames × List Message × Bool
work s =
    let (s', out) = if s.stopped && not s.flushed then flush_frames s else (s, []) in
    (s', out, s'.stopped)

-- The messages in turn. An exception ends the block.
unfoldable pub store_frames : SortFrames → List Message → Result (SortFrames × List Message)
store_frames s [] = ok (s, [])
store_frames s (m ∷ ms) = do
  (s', out) ← store_frame s m
  (s'', rest) ← store_frames s' ms
  ok (s'', out ++ rest)
