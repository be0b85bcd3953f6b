-- ===== src/FrameSearch/Returns.antt =====
-- lib/frame_sync_impl.cc: whether the block raises, from its constructor to its end.
use gr_ccsds.Prelude.{
  ℕ, zero, suc, ◌+◌, ◌-◌, ◌≤◌, ◌≡◌, refl, ap, true, List, [], ◌∷◌, ◌++◌, ok, err, runtime_error,
  Returns, Returns->>=, Returns-if, All, All-intro, if◌then◌else◌, ltb, ◌==◌, arith, take, drop,
  length, length-take,
}
use gr_ccsds.SyncBuffer.Defs.{
  SyncBuffer, Lengths, full, advance, correlation_window, read_signal, overlap_len,
}
use gr_ccsds.SyncBuffer.Queries.{
  energy_window_ptr, num_symbols_missing, num_symbols_in_window, buffer_current_empty,
}
use gr_ccsds.FrameSearch.Tasks.{Radio, AsmPosition, Config, FrameCopyTask, Tags, num_head_symbols}
use gr_ccsds.FrameSearch.Process.{pick_smaller}
use gr_ccsds.FrameSearch.Search.{
  Best, first_best, update_best, window_score, find_loop, find_maximum, positions_before,
  queue_secondary, process_buffer,
}
use gr_ccsds.FrameSearch.Work.{
  add_tags, buffer_lengths, FrameSync, make_frame_sync, read, on_full, work_round, work_loop, work,
  run_works, stream_of, fill_up, stop, session,
}
use gr_ccsds.FrameSearch.Sound.{Valid}
use gr_ccsds.FrameSearch.Raises.{HasHead, queue_secondary-Returns, process_buffer-Returns}
use gr_ccsds.FrameSearch.Loop.{Ready, num_copy-round, work_round-Ready, work_loop-Ready}
use gr_ccsds.FrameSearch.Reached.{make_frame_sync-Ready, work-Ready, run_works-Ready}

every_head :
    (c : Config) (infos : List AsmPosition) → num_head_symbols c ≡ 0 → All (HasHead c) infos
every_head c infos behind =
    let fits : (info : AsmPosition) → HasHead c info = λ info. omega (arith, behind) in
    All-intro (HasHead c) infos fits

module _ {R : Radio} (c : Config) (valid : Valid c) (behind : num_head_symbols c ≡ 0) where
  open R use {dsp}

  find_loop-Returns :
      (b : SyncBuffer R.dsp) (i k : ℕ) (m : Best R)
      → b.lengths ≡ buffer_lengths c
      → i + k ≤ c.block_len
      → Returns (find_loop R c b i k m)
  unfolding find_loop energy_window_ptr
  find_loop-Returns b i zero m same fits = (m, refl)
  find_loop-Returns b i (suc k) m same fits =
      let inside : b.lengths.block_len + overlap_len b.lengths ≡ c.block_len + (c.asm_len - 1) =
        ap (λ (l : Lengths). l.block_len + overlap_len l) same in
      Returns->>= (energy_window_ptr b i c.asm_len) _
        (Returns-if (ltb (b.lengths.block_len + overlap_len b.lengths) (i + c.asm_len))
          (err runtime_error) _ (λ beyond. absurd (ground (arith, inside, valid.marker)))
          (λ _. (_, refl)))
        (λ energies _.
          find_loop-Returns b (i + 1) k
            (update_best {R = R} i (window_score R b energies i) (correlation_window b i) m) same
            (omega arith))

  searched-Returns :
      (b : SyncBuffer R.dsp) (last_indx : ℕ) (queue : List (FrameCopyTask R)) (number : ℕ)
      → b.lengths ≡ buffer_lengths c
      → last_indx ≤ c.block_len
      → Returns (process_buffer c b last_indx queue number)
  unfolding find_maximum
  searched-Returns b last_indx queue number same fits =
      let (found, search) =
        Returns->>= (find_loop R c b 0 last_indx (first_best R)) _
          (find_loop-Returns b 0 last_indx (first_best R) same (omega arith)) (λ m _. (_, refl)) in
      process_buffer-Returns c b last_indx queue number found search (omega (arith, behind)) (
        every_head c (positions_before c (record found { sequence = number + 1 }) 1 c.frames_before)
          behind)

  on_full-Returns :
      (s : FrameSync R)
      → s.buffer.lengths ≡ buffer_lengths c
      → full s.buffer ≡ true
      → Returns (on_full c s)
  unfolding on_full advance
  on_full-Returns s same whole =
      Returns->>= (process_buffer c s.buffer c.block_len s.frame_queue s.sequence_number) _
        (searched-Returns s.buffer c.block_len s.frame_queue s.sequence_number same (omega arith))
        (λ queued _.
          Returns->>= (advance s.buffer) _
            (Returns-if (full s.buffer) _ _ (λ _. (_, refl)) (λ partial. cc)) (λ b _. (_, refl)))

  work_round-Returns :
      (s : FrameSync R) (input : List R.dsp.Sample)
      → s.buffer.lengths ≡ buffer_lengths c
      → Returns (work_round c s input)
  unfolding work_round read_signal
  work_round-Returns s input same =
      Returns-if (full (read s input).buffer) (on_full c (read s input)) (ok (read s input, []))
        (λ whole. on_full-Returns (read s input) same whole) (λ _. (_, refl))

  work_loop-Returns :
      (fuel : ℕ) (stream : List R.dsp.Sample) (sent : List (FrameCopyTask R)) (s : FrameSync R)
      (input : List R.dsp.Sample)
      → Ready c stream sent s
      → Returns (work_loop fuel c s input)
  unfolding work_loop
  work_loop-Returns fuel stream sent s [] h = (_, refl)
  work_loop-Returns zero stream sent s (x ∷ xs) h = (_, refl)
  work_loop-Returns (suc fuel) stream sent s (x ∷ xs) h =
      let input = x ∷ xs in
      let k = pick_smaller (length input) (num_symbols_missing s.buffer) in
      let (positive, within, fits) = num_copy-round c s input h.room (omega arith) in
      Returns->>= (work_round c s (take k input)) _
        (work_round-Returns s (take k input) h.sound.follows.same_lengths)
        (λ first one.
          let begun =
            work_round-Ready c stream sent s (take k input) first valid
              (omega (arith, length-take k input)) one h.sound in
          Returns->>= (work_loop fuel c first.0 (drop k input)) _
            (work_loop-Returns fuel (stream ++ take k input) (sent ++ first.1) first.0
              (drop k input) begun)
            (λ last _. (_, refl)))

  run_works-Returns :
      (stream : List R.dsp.Sample) (sent : List (FrameCopyTask R)) (s : FrameSync R)
      (calls : List (Tags R × List R.dsp.Sample))
      → Ready c stream sent s
      → Returns (run_works c s calls)
  unfolding run_works work
  run_works-Returns stream sent s [] h = (_, refl)
  run_works-Returns stream sent s ((tags, input) ∷ calls) h =
      let begun = record s {
        extra_tags = if s.nitems_read == 0 then add_tags R R.make_dict tags else s.extra_tags;
      } in
      let worked : Returns (work c s tags input) =
        Returns->>= (work_loop (length input) c begun input) _
          (work_loop-Returns (length input) stream sent begun input
            (record { sound = h.sound; room = h.room }))
          (λ r _. (_, refl)) in
      Returns->>= (work c s tags input) _ worked (λ first one.
        Returns->>= (run_works c first.0 calls) _
          (run_works-Returns (stream ++ input) (sent ++ first.1) first.0 calls
            (work-Ready c stream sent s tags input first valid one h))
          (λ r _. (_, refl)))

  stop-Returns :
      (stream : List R.dsp.Sample) (sent : List (FrameCopyTask R)) (s : FrameSync R)
      → Ready c stream sent s
      → Returns (stop c s)
  unfolding stop fill_up read_signal
  stop-Returns stream sent s h =
      let last = pick_smaller (num_symbols_in_window s.buffer) c.block_len in
      Returns->>= (fill_up c s) _
        (Returns-if (buffer_current_empty s.buffer) _ _ (λ _. (_, refl))
          (λ _.
            Returns->>= (process_buffer c _ last s.frame_queue s.sequence_number) _
              (searched-Returns _ last s.frame_queue s.sequence_number h.sound.follows.same_lengths
                (ground arith))
              (λ r _. (_, refl))))
        (λ filled _. (_, refl))

  -- Where a frame has no head before its marker, the block never raises: from its constructor to its
  -- end, any calls of work() return, and so does the end. The marker has two symbols at least, and a
  -- block holds it.
  pub session-Returns :
      (additional_asm : List AsmPosition) (calls : List (Tags R × List R.dsp.Sample))
      → Returns (session {R = R} c additional_asm calls)
  unfolding session make_frame_sync
  session-Returns additional_asm calls =
      Returns->>= (make_frame_sync {R = R} c additional_asm) _
        (Returns->>= (queue_secondary c additional_asm []) _
          (queue_secondary-Returns c additional_asm [] (every_head c additional_asm behind))
          (λ q _. (_, refl)))
        (λ s made.
          let begun = make_frame_sync-Ready c additional_asm s valid made in
          Returns->>= (run_works c s calls) _ (run_works-Returns [] [] s calls begun) (λ worked ran.
            Returns->>= (stop c worked.0) _
              (stop-Returns (stream_of calls) worked.1 worked.0
                (run_works-Ready c [] [] s calls worked valid ran begun))
              (λ last _. (_, refl))))

  -- Where a frame has no head before its marker: from a block that keeps its invariant and has room for
  -- a sample, as many rounds of the loop of work() as the input has samples return, and leave none of
  -- the input. The marker has two symbols at least, and a block holds it.
  pub work_loop-ends :
      (stream : List R.dsp.Sample) (sent : List (FrameCopyTask R)) (s : FrameSync R)
      (input : List R.dsp.Sample)
      → Ready c stream sent s
      → (r : FrameSync R × List (FrameCopyTask R) × List R.dsp.Sample) × (work_loop
            (length input)
            c
            s
            input
          ≡ ok r)
        × (r.2 ≡ [])
  work_loop-ends stream sent s input h =
      let (r, e) = work_loop-Returns (length input) stream sent s input h in
      (r, e, (work_loop-Ready c (length input) stream sent s input r valid (omega arith) e h).1)
