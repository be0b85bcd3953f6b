-- ===== src/FrameSearch/Raises.antt =====
-- When the frames for a marker cannot be queued.
use gr_ccsds.Prelude.{
  All-imp, Result, ℕ, ◌+◌, ◌≤◌, ◌≡◌, refl, ◌↔◌, true, false, Bool, sym, ◌∙◌, subst, ok-injective,
  List, [], ◌∷◌, ok, err, runtime_error, Returns, Returns->>=, Returns-if, >>=-eq-ok, ltb, arith,
  All,
}
use gr_ccsds.SyncBuffer.Defs.{SyncBuffer}
use gr_ccsds.FrameSearch.Tasks.{
  Radio, AsmPosition, Config, FrameCopyTask, num_head_symbols, queue_frame_output,
}
use gr_ccsds.FrameSearch.Search.{
  find_maximum, positions_before, positions_after, queue_secondary, process_buffer,
}
use gr_ccsds.FrameSearch.Copied.{queue_frame_output-eq-ok}
use gr_ccsds.FrameSearch.Standing.{
  IsQueued, members-IsQueued, queue_frame_output-IsQueued, queue_frame_output-kept,
  queue_secondary-IsQueued, queue_secondary-kept,
}
use gr_ccsds.FrameSearch.Queued.{positions_after-late}

-- The head of a frame at the position is in the stream.
abbrev pub HasHead : Config → AsmPosition → Type 0
HasHead c info = num_head_symbols c ≤ info.offset

-- The head of the frame at the position, and those of the earlier frames that belong to it.
abbrev pub Heads : Config → AsmPosition → Type 0
Heads c frame = HasHead c frame × All (HasHead c) (positions_before c frame 1 c.frames_before)

module _ {R : Radio} (c : Config) where
  pub queue_frame_output-Returns :
      (info : AsmPosition) (primary : Bool) (queue : List (FrameCopyTask R))
      → HasHead c info
      → Returns (queue_frame_output c info primary queue)
  unfolding queue_frame_output
  queue_frame_output-Returns info primary queue fits =
      Returns-if (ltb info.offset (num_head_symbols c)) (err runtime_error) _
        (λ early. absurd (ground (arith, fits))) (λ _. (_, refl))

  pub queue_secondary-Returns :
      (infos : List AsmPosition) (queue : List (FrameCopyTask R))
      → All (HasHead c) infos
      → Returns (queue_secondary c infos queue)
  unfolding queue_secondary
  queue_secondary-Returns [] queue h = (queue, refl)
  queue_secondary-Returns (info ∷ infos) queue h =
      Returns->>= (queue_frame_output c info false queue) (queue_secondary c infos)
        (queue_frame_output-Returns info false queue h.0)
        (λ first _. queue_secondary-Returns infos first h.1)

  queue_secondary-HasHead :
      (infos : List AsmPosition) (queue last : List (FrameCopyTask R))
      → queue_secondary c infos queue ≡ ok last
      → All (HasHead c) infos
  unfolding queue_secondary
  queue_secondary-HasHead [] queue last e = tt
  queue_secondary-HasHead (info ∷ infos) queue last e =
      let (first, queued, others) =
        >>=-eq-ok (queue_frame_output c info false queue) (queue_secondary c infos) e in
      (
        (queue_frame_output-eq-ok c [] info false queue first queued).0,
        queue_secondary-HasHead infos first last others,
      )

  pub process_buffer-Returns :
      (b : SyncBuffer R.dsp) (last_indx : ℕ) (queue : List (FrameCopyTask R)) (number : ℕ)
      (found : AsmPosition)
      → find_maximum R c b last_indx ≡ ok found
      → HasHead c found
      → All
          (HasHead c)
          (positions_before c (record found { sequence = number + 1 }) 1 c.frames_before)
      → Returns (process_buffer c b last_indx queue number)
  unfolding process_buffer
  process_buffer-Returns b last_indx queue number found search fits early =
      let frame = record found { sequence = number + 1 } in
      let before = positions_before c frame 1 c.frames_before in
      let after = positions_after c frame 1 c.frames_after in
      rw search (
        Returns->>= (queue_frame_output c frame true queue) _
          (queue_frame_output-Returns frame true queue fits)
          (λ q1 _.
            Returns->>= (queue_secondary c before q1) _ (queue_secondary-Returns before q1 early)
              (λ q2 _.
                Returns->>= (queue_secondary c after q2) _
                  (queue_secondary-Returns after q2
                    (positions_after-late c frame (num_head_symbols c) 1 c.frames_after fits))
                  (λ q3 _. (_, refl)))))

  -- The call returns the next number of the sequence and a queue in which stand a frame for the position
  -- itself, one for each of the positions before and after it, and one for every frame of the old queue.
  abbrev pub Queues :
      AsmPosition → List (FrameCopyTask R) → ℕ → Result (List (FrameCopyTask R) × ℕ) → Type 0
  Queues frame queue number called =
      (queue' : List (FrameCopyTask R)) × (called ≡ ok (queue', number + 1))
      × IsQueued queue' frame
      × All (IsQueued queue') (positions_before c frame 1 c.frames_before)
      × All (IsQueued queue') (positions_after c frame 1 c.frames_after)
      × All (λ t. IsQueued queue' t.asm_pos) queue

  process_buffer-Queues :
      (b : SyncBuffer R.dsp) (last_indx : ℕ) (queue : List (FrameCopyTask R)) (number : ℕ)
      (found : AsmPosition)
      → find_maximum R c b last_indx ≡ ok found
      → Returns (process_buffer c b last_indx queue number)
      → Queues
          (record found { sequence = number + 1 })
          queue
          number
          (process_buffer c b last_indx queue number)
  unfolding process_buffer
  process_buffer-Queues b last_indx queue number found search (r, e) =
      let (info, again, e0) = >>=-eq-ok (find_maximum R c b last_indx) _ e in
      let marked = record info { sequence = number + 1 } in
      let before = positions_before c marked 1 c.frames_before in
      let after = positions_after c marked 1 c.frames_after in
      let (q1, primary, e1) = >>=-eq-ok (queue_frame_output c marked true queue) _ e0 in
      let (q2, earlier, e2) = >>=-eq-ok (queue_secondary c before q1) _ e1 in
      let (q3, later, e3) = >>=-eq-ok (queue_secondary c after q2) _ e2 in
      let kept = λ (p : AsmPosition) (h : IsQueued q1 p).
        queue_secondary-kept c after q2 q3 p later
          (queue_secondary-kept c before q1 q2 p earlier h) in
      subst
        (λ (info : AsmPosition).
          Queues (record info { sequence = number + 1 }) queue number
            (process_buffer c b last_indx queue number))
        (ok-injective (sym again ∙ search))
        (
          q3,
          e ∙ sym e3,
          kept marked (queue_frame_output-IsQueued c marked true queue q1 primary),
          All-imp before (λ p h. queue_secondary-kept c after q2 q3 p later h)
              (queue_secondary-IsQueued c before q1 q2 earlier),
          queue_secondary-IsQueued c after q2 q3 later,
          All-imp queue
              (λ t h.
                kept t.asm_pos (queue_frame_output-kept c marked true queue q1 t.asm_pos primary h))
              (members-IsQueued queue),
        )

  process_buffer-Heads :
      (b : SyncBuffer R.dsp) (last_indx : ℕ) (queue : List (FrameCopyTask R)) (number : ℕ)
      (found : AsmPosition)
      → find_maximum R c b last_indx ≡ ok found
      → Returns (process_buffer c b last_indx queue number)
      → Heads c (record found { sequence = number + 1 })
  unfolding process_buffer
  process_buffer-Heads b last_indx queue number found search (r, e) =
      let (info, again, e0) = >>=-eq-ok (find_maximum R c b last_indx) _ e in
      let marked = record info { sequence = number + 1 } in
      let (q1, primary, e1) = >>=-eq-ok (queue_frame_output c marked true queue) _ e0 in
      let (q2, earlier, e2) =
        >>=-eq-ok (queue_secondary c (positions_before c marked 1 c.frames_before) q1) _ e1 in
      subst (λ (info : AsmPosition). Heads c (record info { sequence = number + 1 }))
        (ok-injective (sym again ∙ search))
        (
          (queue_frame_output-eq-ok c [] marked true queue q1 primary).0,
          queue_secondary-HasHead (positions_before c marked 1 c.frames_before) q1 q2 earlier,
        )

  -- When the search has found a marker: the call returns exactly when the head of the marker's own frame
  -- and the head of each earlier frame whose marker would not be before the stream are within the
  -- stream, and otherwise it raises; and exactly then it returns the next number of the sequence and a
  -- queue that has a frame for the position that was found, for each of those earlier positions, for
  -- each of the later ones, and for every frame that was queued before.
  pub process_buffer-Returns_iff :
      (b : SyncBuffer R.dsp) (last_indx : ℕ) (queue : List (FrameCopyTask R)) (number : ℕ)
      (found : AsmPosition)
      → find_maximum R c b last_indx ≡ ok found
      → (Returns (process_buffer c b last_indx queue number)
          ↔ Heads c (record found { sequence = number + 1 }))
        × (Queues
              (record found { sequence = number + 1 })
              queue
              number
              (process_buffer c b last_indx queue number)
            ↔ Heads c (record found { sequence = number + 1 }))
  process_buffer-Returns_iff b last_indx queue number found search =
      let fits = process_buffer-Heads b last_indx queue number found search in
      let returns = λ (h : Heads c (record found { sequence = number + 1 })).
        process_buffer-Returns b last_indx queue number found search h.0 h.1 in
      (
        (fits, returns),
        (
          λ queues. fits (_, queues.1),
          λ h. process_buffer-Queues b last_indx queue number found search (returns h),
        ),
      )
