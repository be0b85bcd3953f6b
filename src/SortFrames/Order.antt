-- ===== src/SortFrames/Order.antt =====
-- What a block sends in all, as long as the frame numbers are below the length of its window: the frames
-- in the order of their numbers.
use mathlib.Core.Path.{fun_ext}
use mathlib.Core.List.{flat_map}
use gr_ccsds.Prelude.{
  String, ℕ, ◌+◌, ◌^◌, ◌≤◌, ◌<◌, ◌≡◌, ◌≢◌, refl, ap, ◌∙◌, ◌⊎◌, inl, inr, true, false, some, List,
  [], ◌∷◌, ◌++◌, All, ok,
}
use gr_ccsds.Pdu.Message.{Message, eof}
use gr_ccsds.SortFrames.Defs.{Config, SortFrames, no_duplicates, make, store_frames}
use gr_ccsds.SortFrames.Flush.{from}
use gr_ccsds.SortFrames.Sorting.{collected, IsEarly, store_frames-sorted}
use gr_ccsds.SortFrames.Best.{
  of_number, kept_of, collected-of_number, collected-allowed, collected-IsBest, IsBest,
}

-- A new block that allows duplicates, given frames with numbers below the length of its window, in any
-- order, and then the end of the stream, sends all of them in the order of their numbers, those of one
-- number in the order of their arrival, and then the end of the stream. It does not raise. The window
-- has one slot at least, and twice its length is a number of 64 bits.
pub store_frames-stable :
    (c : Config) (ms : List Message)
    → 0 < c.window
    → c.window + c.window ≤ 2 ^ 64
    → c.allow_duplicates ≡ true
    → All (IsEarly c) ms
    → (t : SortFrames) × (store_frames (make c) (ms ++ eof ∷ [])
        ≡ ok (t, flat_map (λ n. of_number c n ms) (from 0 c.window) ++ eof ∷ []))
store_frames-stable c ms h wide allowed early =
    let (t, sent) = store_frames-sorted c ms h wide early in
    (
      t,
      sent
          ∙ ap (λ (f : ℕ → List Message). ok (t, flat_map f (from 0 c.window) ++ eof ∷ []))
              (fun_ext (λ n. collected-allowed c n ms allowed)),
    )

-- What is kept of the frames `fs` of one number: nothing if there are none, and else the best one.
abbrev pub BestOf : Config → List Message → List Message → Type 0
BestOf c fs sent =
    ((fs ≡ []) × (sent ≡ []))
    ⊎ ((frame : Message) × IsBest c fs (record no_duplicates { frames = sent }) frame)

collected-BestOf :
    (c : Config) (f : String) (n : ℕ) (ms : List Message)
    → c.allow_duplicates ≡ false
    → c.score_field ≡ some f
    → BestOf c (of_number c n ms) (collected c n ms no_duplicates).frames
unfolding kept_of
collected-BestOf c f n ms single scored = by_frames (of_number c n ms) refl
  where
    by_frames :
        (fs : List Message)
        → of_number c n ms ≡ fs
        → BestOf c (of_number c n ms) (collected c n ms no_duplicates).frames
    by_frames [] none_given = inl (
      none_given,
      ap (λ d. d.frames)
          (collected-of_number c n ms no_duplicates
            ∙ ap (λ fs. kept_of c fs no_duplicates) none_given),
    )
    by_frames (first ∷ rest) given =
        let some_given : of_number c n ms ≢ [] = λ none_given. cc in
        let (frame, best) = collected-IsBest c f n ms single scored some_given in
        inr (frame, record { alone = best.alone; given = best.given; best = best.best })

-- A new block that does not allow duplicates and scores frames, given frames with numbers below the
-- length of its window, in any order, and then the end of the stream, sends one frame for each number
-- that any of them has, in the order of the numbers, and then the end of the stream: a frame of that
-- number whose score none of them exceeds, or, as configured, none falls below. It does not raise. The
-- window has one slot at least, and twice its length is a number of 64 bits.
pub store_frames-best :
    (c : Config) (f : String) (ms : List Message)
    → 0 < c.window
    → c.window + c.window ≤ 2 ^ 64
    → c.allow_duplicates ≡ false
    → c.score_field ≡ some f
    → All (IsEarly c) ms
    → (t : SortFrames) × (sent : ℕ → List Message) × (store_frames (make c) (ms ++ eof ∷ [])
        ≡ ok (t, flat_map sent (from 0 c.window) ++ eof ∷ []))
      × ((n : ℕ) → BestOf c (of_number c n ms) (sent n))
store_frames-best c f ms h wide single scored early =
    let (t, e) = store_frames-sorted c ms h wide early in
    (
      t,
      λ n. (collected c n ms no_duplicates).frames,
      e,
      λ n. collected-BestOf c f n ms single scored,
    )
