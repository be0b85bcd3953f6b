-- ===== src/FrameSearch/Queued.antt =====
-- lib/frame_sync_impl.cc: the frames queued for a marker and the invariant of the block.
use gr_ccsds.Prelude.{
  ℕ, zero, suc, ◌+◌, ◌-◌, ◌*◌, ◌≤◌, ◌≡◌, refl, sym, subst, inl, true, false, Bool, List, [], ◌∷◌,
  ap, ok, >>=-eq-ok, ok-injective, All, All-intro, if-intro, ltb, arith, append-nil,
}
use native.Mathlib.Nat.{mul-le-mul_right}
use gr_ccsds.SyncBuffer.Defs.{SyncBuffer, make, history_len}
use gr_ccsds.SyncBuffer.Holds.{Follows, make-Follows}
use gr_ccsds.FrameSearch.Tasks.{Radio, AsmPosition, Config, FrameCopyTask, queue_frame_output}
use gr_ccsds.FrameSearch.Process.{indx_threshold}
use gr_ccsds.FrameSearch.Search.{
  first_best, find_loop, find_maximum, positions_before, positions_after, queue_secondary,
  process_buffer,
}
use gr_ccsds.FrameSearch.Work.{buffer_lengths}
use gr_ccsds.FrameSearch.Sound.{Sound}
use gr_ccsds.FrameSearch.Copied.{queue_frame_output-All, queue_frame_output-Copied}
use gr_ccsds.FrameSearch.Reach.{InReach, make_task-InReach}
use gr_ccsds.FrameSearch.Once.{queue_frame_output-Once}

module _ {R : Radio} (c : Config) where
  queue_frame_output-Sound :
      (stream : List R.dsp.Sample) (sent queue queue' : List (FrameCopyTask R))
      (b : SyncBuffer R.dsp) (info : AsmPosition) (primary : Bool)
      → queue_frame_output c info primary queue ≡ ok queue'
      → indx_threshold c b ≤ info.offset
      → Sound c stream sent queue b
      → Sound c stream sent queue' b
  queue_frame_output-Sound stream sent queue queue' b info primary e late h = record {
    follows = h.follows;
    begun = h.begun;
    once = queue_frame_output-Once c _ info primary sent queue queue' e late h.once;
    queued = queue_frame_output-Copied c stream info primary queue queue' e h.queued;
    delivered = h.delivered;
    reach = λ long.
        queue_frame_output-All c [] (InReach b) info primary queue queue' e
          (make_task-InReach R c b info primary (ap history_len h.follows.same_lengths) late)
          (h.reach long);
  }

  queue_secondary-Sound :
      (stream : List R.dsp.Sample) (sent queue queue' : List (FrameCopyTask R))
      (b : SyncBuffer R.dsp) (infos : List AsmPosition)
      → queue_secondary c infos queue ≡ ok queue'
      → All (λ (info : AsmPosition). indx_threshold c b ≤ info.offset) infos
      → Sound c stream sent queue b
      → Sound c stream sent queue' b
  unfolding queue_secondary
  queue_secondary-Sound stream sent queue queue' b [] e late h =
      subst (λ q. Sound c stream sent q b) (ok-injective e) h
  queue_secondary-Sound stream sent queue queue' b (info ∷ infos) e late h =
      let (first, queued, others) =
        >>=-eq-ok (queue_frame_output c info false queue) (queue_secondary c infos) e in
      queue_secondary-Sound stream sent first queue' b infos others late.1
        (queue_frame_output-Sound stream sent queue first b info false queued late.0 h)

-- The positions before and after a marker of the window are not before the bound.
positions_before-late :
    (c : Config) (frame : AsmPosition) (start i k : ℕ)
    → start ≤ frame.offset
    → i + k ≤ c.frames_before + 1
    → All
        (λ (info : AsmPosition). start - c.frames_before * c.block_len ≤ info.offset)
        (positions_before c frame i k)
unfolding positions_before
positions_before-late c frame start i zero later fits = tt
positions_before-late c frame start i (suc k) later fits =
    let rest = positions_before-late c frame start (i + 1) k later (omega arith) in
    let times : i * c.block_len ≤ c.frames_before * c.block_len =
      mul-le-mul_right c.block_len (omega arith) in
    if-intro (All (λ (info : AsmPosition). start - c.frames_before * c.block_len ≤ info.offset))
      (ltb frame.offset (i * c.block_len)) (positions_before c frame (i + 1) k)
      (record frame { offset = frame.offset - i * c.block_len }
        ∷ positions_before c frame (i + 1) k)
      (λ _. rest) (λ _. (omega (arith, times), rest))

pub positions_after-late :
    (c : Config) (frame : AsmPosition) (bound i k : ℕ)
    → bound ≤ frame.offset
    → All (λ (info : AsmPosition). bound ≤ info.offset) (positions_after c frame i k)
unfolding positions_after
positions_after-late c frame bound i zero later = tt
positions_after-late c frame bound i (suc k) later =
    (omega arith, positions_after-late c frame bound (i + 1) k later)

pub find_maximum-offset :
    (R : Radio) (c : Config) (b : SyncBuffer R.dsp) (n : ℕ) (found : AsmPosition)
    → find_maximum R c b n ≡ ok found
    → b.offset_counter ≤ found.offset
unfolding find_maximum
find_maximum-offset R c b n found e =
    let (best, loop, same) = >>=-eq-ok (find_loop R c b 0 n (first_best R)) _ e in
    subst (λ (p : AsmPosition). b.offset_counter ≤ p.offset) (ok-injective same) (omega arith)

module _ {R : Radio} (c : Config) where
  pub Sound-process_buffer :
      (stream : List R.dsp.Sample) (sent queue : List (FrameCopyTask R)) (b : SyncBuffer R.dsp)
      (last_indx number : ℕ) (r : List (FrameCopyTask R) × ℕ)
      → process_buffer c b last_indx queue number ≡ ok r
      → Sound c stream sent queue b
      → Sound c stream sent r.0 b
  unfolding process_buffer
  Sound-process_buffer stream sent queue b last_indx number r e h =
      let (found, search, e1) = >>=-eq-ok (find_maximum R c b last_indx) _ e in
      let frame = record found { sequence = number + 1 } in
      let here = find_maximum-offset R c b last_indx found search in
      let (q1, primary, e2) = >>=-eq-ok (queue_frame_output c frame true queue) _ e1 in
      let (q2, before, e3) =
        >>=-eq-ok (queue_secondary c (positions_before c frame 1 c.frames_before) q1) _ e2 in
      let (q3, after, same) =
        >>=-eq-ok (queue_secondary c (positions_after c frame 1 c.frames_after) q2) _ e3 in
      subst (λ (r : List (FrameCopyTask R) × ℕ). Sound c stream sent r.0 b) (ok-injective same)
        (queue_secondary-Sound c stream sent q2 q3 b (positions_after c frame 1 c.frames_after)
          after (positions_after-late c frame _ 1 c.frames_after (omega arith))
          (queue_secondary-Sound c stream sent q1 q2 b (positions_before c frame 1 c.frames_before)
            before
            (positions_before-late c frame b.offset_counter 1 c.frames_before here (omega arith))
            (queue_frame_output-Sound c stream sent queue q1 b frame true primary (omega arith) h)))

  pub Sound-make :
      (additional_asm : List AsmPosition) (queue : List (FrameCopyTask R))
      → 1 ≤ c.asm_len
      → queue_secondary c additional_asm [] ≡ ok queue
      → Sound c [] [] queue (make R.dsp (buffer_lengths c))
  Sound-make additional_asm queue marker e =
      let l = buffer_lengths c in
      let early : (info : AsmPosition) → indx_threshold c (make R.dsp l) ≤ info.offset =
        λ info. omega arith in
      let fresh : Sound c [] [] [] (make R.dsp l) = record {
        follows = subst (Follows l (make R.dsp l)) (sym (append-nil _)) (make-Follows l marker);
        begun = inl refl;
        once = record { single = λ p. omega arith; before = tt };
        queued = tt;
        delivered = tt;
        reach = λ long. tt;
      } in
      queue_secondary-Sound c [] [] [] queue (make R.dsp l) additional_asm e
        (All-intro (λ (info : AsmPosition). indx_threshold c (make R.dsp l) ≤ info.offset)
          additional_asm (λ (info : AsmPosition). early info))
        fresh
