-- ===== src/SortFrames/Late.antt =====
-- What the loop does when the window moves past frames.
use gr_ccsds.Prelude.{
  ℕ, ◌+◌, ◌-◌, ◌≤◌, ◌<◌, ◌≡◌, ◌≢◌, refl, sym, ap, ◌∙◌, Bool, true, List, [], get_or, set, leb,
  if◌then◌else◌, arith,
}
use gr_ccsds.Pdu.Message.{Message}
use gr_ccsds.SortFrames.Defs.{
  no_duplicates, SortFrames, slot_index, index_of, get_duplicates, send_frame, advance_storage,
  next_frame,
}
use gr_ccsds.SortFrames.Ring.{slot_index_current, slot_index_window}
use gr_ccsds.SortFrames.Storage.{
  WellFormed, put_duplicates-WellFormed, get_duplicates-put_self, get_duplicates-put_ne, moved,
  get_duplicates-moved, get_duplicates-moved_current,
}
use gr_ccsds.SortFrames.Flush.{emptied}

-- Once the current frame's number is the length of the window or more, the loop sends the current frame
-- in place of the frame that leaves the window: the number it asks for stands in the current frame's
-- slot.
pub send_frame-current :
    (s : SortFrames)
    → WellFormed s
    → s.config.window ≤ s.current_frame
    → send_frame s (s.current_frame - s.config.window) ≡ send_frame s s.current_frame
unfolding send_frame
send_frame-current s w h =
    let w_before : s.current_frame - (s.current_frame - s.config.window) ≡ s.config.window =
      omega arith in
    let none_before : s.current_frame - s.current_frame ≡ 0 = omega arith in
    let same : index_of s (s.current_frame - s.config.window) ≡ index_of s s.current_frame =
      ap (slot_index s.config.window s.storage_offset) w_before
      ∙ slot_index_window s.config.window s.storage_offset w.inside
      ∙ sym (slot_index_current s.config.window s.storage_offset w.inside)
      ∙ sym (ap (slot_index s.config.window s.storage_offset) none_before) in
    ap (by_slot s) same
  where
    by_slot : SortFrames → ℕ → SortFrames × List Message
    by_slot s i =
        let d = get_or s.frame_storage i no_duplicates in
        (record s { frame_storage = set s.frame_storage i (record d { frames = [] }) }, d.frames)

next_frame-full :
    (s : SortFrames)
    → WellFormed s
    → s.config.window ≤ s.current_frame
    → next_frame s ≡ (moved (emptied s s.current_frame), (get_duplicates s s.current_frame).frames)
unfolding next_frame send_frame
next_frame-full s w h =
    let test : leb s.config.window s.current_frame ≡ true = ground arith in
    ap (by_test s) test ∙ ap (move_on s) (send_frame-current s w h)
  where
    move_on : SortFrames → SortFrames × List Message → SortFrames × List Message
    move_on s r = (record (advance_storage r.0) { current_frame = s.current_frame + 1 }, r.1)

    by_test : SortFrames → Bool → SortFrames × List Message
    by_test s b =
        let r : SortFrames × List Message =
          if b then send_frame s (s.current_frame - s.config.window) else (s, []) in
        (record (advance_storage r.0) { current_frame = s.current_frame + 1 }, r.1)

-- One round of the loop, when the current frame's number is the length of the window or more, and the
-- window has three slots or more, so that there is a number `k` before the current one that stays in
-- it: the round sends the frames of the current number, and not those of the number that leaves the
-- window; the current number and the next one have no frames then; and `k` keeps what it had.
pub next_frame-sends_current :
    (s : SortFrames) (k : ℕ)
    → WellFormed s
    → s.config.window ≤ s.current_frame
    → k < s.current_frame
    → s.current_frame + 1 < k + s.config.window
    → ((next_frame s).1 ≡ (get_duplicates s s.current_frame).frames)
      × ((get_duplicates (next_frame s).0 s.current_frame).frames ≡ [])
      × (get_duplicates (next_frame s).0 (s.current_frame + 1) ≡ no_duplicates)
      × (get_duplicates (next_frame s).0 k ≡ get_duplicates s k)
next_frame-sends_current s k w full before stays =
    let taken = emptied s s.current_frame in
    let empty = record (get_duplicates s s.current_frame) { frames = [] } in
    let still = put_duplicates-WellFormed s s.current_frame empty w in
    let none_left = ap (λ d. d.frames) (get_duplicates-put_self s s.current_frame empty w) in
    let other : s.current_frame ≢ k = λ same. omega arith in
    rw (next_frame-full s w full) (
      refl,
      ap (λ d. d.frames)
            (get_duplicates-moved taken s.current_frame still (omega arith) (omega arith))
          ∙ none_left,
      get_duplicates-moved_current taken still,
      get_duplicates-moved taken k still (omega arith) stays
          ∙ get_duplicates-put_ne s s.current_frame k empty w (omega arith, omega arith)
              (omega arith, omega arith) other,
    )
