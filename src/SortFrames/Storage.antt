-- ===== src/SortFrames/Storage.antt =====
-- What stands in the slots of a well-formed block after each operation on them.
use gr_ccsds.Prelude.{
  ℕ, ◌+◌, ◌-◌, ◌%◌, ◌≤◌, ◌<◌, ◌≡◌, ◌≢◌, ap, ◌∙◌, length, length-set, get_or, arith,
}
use gr_ccsds.SortFrames.Defs.{
  Duplicates, no_duplicates, SortFrames, slot_index, index_of, get_duplicates, put_duplicates,
  advance_storage,
}
use gr_ccsds.SortFrames.Ring.{
  slot_index-lt, slot_index-injective, slot_index_next, slot_index_current, next_offset-lt,
}
use gr_ccsds.Prelude.Access.{get_or-set_self, get_or-set_ne}

-- The ring has as many slots as the window, one at least, and the offset is one of them.
pub record WellFormed (s : SortFrames) : Type 0 where
  pub whole : length s.frame_storage ≡ s.config.window
  pub inside : s.storage_offset < s.config.window

-- Frame `n` is in the window.
abbrev pub InWindow : SortFrames → ℕ → Type 0
InWindow s n = (n ≤ s.current_frame) × (s.current_frame < n + s.config.window)

pub put_duplicates-WellFormed :
    (s : SortFrames) (n : ℕ) (d : Duplicates) → WellFormed s → WellFormed (put_duplicates s n d)
put_duplicates-WellFormed s n d w = record {
  whole = length-set s.frame_storage (index_of s n) d ∙ w.whole;
  inside = w.inside;
}

pub get_duplicates-put_self :
    (s : SortFrames) (n : ℕ) (d : Duplicates)
    → WellFormed s
    → get_duplicates (put_duplicates s n d) n ≡ d
get_duplicates-put_self s n d w =
    let slot = slot_index-lt s.config.window s.storage_offset (s.current_frame - n) w.inside in
    get_or-set_self s.frame_storage (index_of s n) d no_duplicates (omega (arith, w.whole, slot))

pub get_duplicates-put_ne :
    (s : SortFrames) (n k : ℕ) (d : Duplicates)
    → WellFormed s
    → InWindow s n
    → InWindow s k
    → n ≢ k
    → get_duplicates (put_duplicates s n d) k ≡ get_duplicates s k
get_duplicates-put_ne s n k d w hn hk differ =
    get_or-set_ne s.frame_storage (index_of s n) (index_of s k) d no_duplicates (λ same. differ (
      same_number (
        slot_index-injective s.config.window s.storage_offset (s.current_frame - n)
          (s.current_frame - k) w.inside (omega (arith, hn)) (omega (arith, hk)) same)))
  where
    same_number : s.current_frame - n ≡ s.current_frame - k → n ≡ k
    same_number e = omega (arith, hn, hk)

-- The window one frame further.
abbrev pub moved : SortFrames → SortFrames
moved s = record (advance_storage s) { current_frame = s.current_frame + 1 }

pub moved-WellFormed : (s : SortFrames) → WellFormed s → WellFormed (moved s)
unfolding advance_storage
moved-WellFormed s w = record {
  whole = length-set s.frame_storage _ no_duplicates ∙ w.whole;
  inside = next_offset-lt s.config.window s.storage_offset w.inside;
}

abbrev next_offset : SortFrames → ℕ
next_offset s = (s.storage_offset + 1) % s.config.window

index_of-moved_current :
    (s : SortFrames) → WellFormed s → index_of (moved s) (s.current_frame + 1) ≡ next_offset s
unfolding advance_storage
index_of-moved_current s w =
    let none_before : s.current_frame + 1 - (s.current_frame + 1) ≡ 0 = omega arith in
    ap (slot_index s.config.window (next_offset s)) none_before
    ∙ slot_index_current s.config.window (next_offset s)
        (next_offset-lt s.config.window s.storage_offset w.inside)

-- The new slot is not that of another frame of the window.
index_of-moved_ne :
    (s : SortFrames) (k : ℕ)
    → WellFormed s
    → k ≤ s.current_frame
    → s.current_frame + 1 < k + s.config.window
    → next_offset s ≢ index_of (moved s) k
unfolding advance_storage
index_of-moved_ne s k w hk stays same =
    let at_zero =
      slot_index_current s.config.window (next_offset s)
        (next_offset-lt s.config.window s.storage_offset w.inside) in
    let distance =
      slot_index-injective s.config.window (next_offset s) 0 (s.current_frame + 1 - k)
        (next_offset-lt s.config.window s.storage_offset w.inside) (omega arith) (omega arith)
        (at_zero ∙ same) in
    absurd (omega arith)

-- The frames that stay in the window are kept.
pub get_duplicates-moved :
    (s : SortFrames) (k : ℕ)
    → WellFormed s
    → k ≤ s.current_frame
    → s.current_frame + 1 < k + s.config.window
    → get_duplicates (moved s) k ≡ get_duplicates s k
unfolding advance_storage
get_duplicates-moved s k w hk stays =
    let further : s.current_frame + 1 - k ≡ s.current_frame - k + 1 = omega arith in
    let slot =
      ap (slot_index s.config.window (next_offset s)) further
      ∙ slot_index_next s.config.window s.storage_offset (s.current_frame - k) w.inside
          (omega arith) in
    get_or-set_ne s.frame_storage (next_offset s) (index_of (moved s) k) no_duplicates no_duplicates
      (index_of-moved_ne s k w hk stays)
    ∙ ap (λ i. get_or s.frame_storage i no_duplicates) slot

-- The new current frame has none.
pub get_duplicates-moved_current :
    (s : SortFrames) → WellFormed s → get_duplicates (moved s) (s.current_frame + 1) ≡ no_duplicates
unfolding advance_storage
get_duplicates-moved_current s w =
    ap (λ i. get_or (moved s).frame_storage i no_duplicates) (index_of-moved_current s w)
    ∙ get_or-set_self s.frame_storage (next_offset s) no_duplicates no_duplicates
        (omega (arith, w.whole, next_offset-lt s.config.window s.storage_offset w.inside))
