-- ===== src/FrameSearch/Session.antt =====
-- The frames that the block publishes, from its constructor to its end.
use gr_ccsds.Prelude.{
  ℕ, true, ◌-◌, ◌≤◌, ◌<◌, ◌≡◌, ap, ◌∙◌, subst, false, List, [], ◌∷◌, ◌++◌, ok, if-eq-intro,
  >>=-eq-ok, ok-injective, if-intro, ltb, ◌==◌, arith, take, drop, replicate, append-nil,
  append_assoc, take-append-drop, All, All-append, All-imp,
}
use gr_ccsds.SyncBuffer.Defs.{Dsp, Lengths, overlap_len, read_signal, num_copy}
use gr_ccsds.SyncBuffer.Queries.{buffer_current_empty}
use gr_ccsds.FrameSearch.Tasks.{
  Radio, AsmPosition, Config, FrameCopyTask, Tags, truth, num_remaining, num_head_symbols,
}
use gr_ccsds.FrameSearch.Process.{process_frame_queue}
use gr_ccsds.FrameSearch.Search.{process_buffer}
use gr_ccsds.FrameSearch.Work.{
  buffer_lengths, FrameSync, make_frame_sync, run_works, stream_of, fill_up, flush, stop, session,
}
use gr_ccsds.FrameSearch.Copied.{Copied, Copied-append}
use gr_ccsds.FrameSearch.Once.{count, count-append}
use gr_ccsds.FrameSearch.Sound.{Valid, Delivered, Sound, Sound-read, Sound-process_frame_queue}
use gr_ccsds.FrameSearch.Queued.{Sound-process_buffer}
use gr_ccsds.FrameSearch.Loop.{Ready}
use gr_ccsds.FrameSearch.Reached.{make_frame_sync-Ready, run_works-Ready}

-- The stream, and silence for the overlap behind it.
abbrev pub silenced : (V : Dsp) → Config → List V.Sample → List V.Sample
silenced V c stream = stream ++ replicate (c.asm_len - 1) V.silence

-- A task that has copied from the stream, one symbol at least if its frame has one.
abbrev pub Published : {R : Radio} → Config → List R.dsp.Sample → FrameCopyTask R → Type 0
Published c stream t = Copied c stream t × (0 < c.output_num_symbols → 0 < t.num_symbols_copied)

module _ {R : Radio} (c : Config) where
  -- What stop() publishes is copied from the stream, with silence for the marker behind its end.
  flush-Copied :
      (stream : List R.dsp.Sample) (queue : List (FrameCopyTask R))
      → All (Copied c stream) queue
      → All (Published c stream) (flush queue)
  unfolding flush
  flush-Copied stream [] h = tt
  flush-Copied stream (t ∷ ts) h =
      let rest = flush-Copied stream ts h.1 in
      let cut = record t { header = R.dict_add t.header "frame_complete" (truth false) } in
      if-intro (All (Published c stream)) (t.num_symbols_copied == 0) (flush ts) _ (λ _. rest)
        (λ some. (
          if-intro (Published c stream) (ltb 0 (num_remaining t)) cut t
              (λ _. (
                record {
                  whole = h.0.whole;
                  slots = h.0.slots;
                  within = h.0.within;
                  behind_head = h.0.behind_head;
                  place = h.0.place;
                  turned = h.0.turned;
                  headed = h.0.headed;
                  symbols = h.0.symbols;
                },
                λ _. ground (arith, some),
              ))
              (λ _. (h.0, λ _. ground (arith, some))),
          rest,
        ))

  flush-count :
      (queue : List (FrameCopyTask R)) (p : AsmPosition) → count p (flush queue) ≤ count p queue
  unfolding flush
  flush-count [] p = omega arith
  flush-count (t ∷ ts) p =
      let cut = record t { header = R.dict_add t.header "frame_complete" (truth false) } in
      if-intro (λ (left : List (FrameCopyTask R)). count p left ≤ count p (t ∷ ts))
        (t.num_symbols_copied == 0) (flush ts) _ (λ _. omega (arith, flush-count ts p))
        (λ _.
          if-intro (λ (u : FrameCopyTask R). count p (u ∷ flush ts) ≤ count p (t ∷ ts))
            (ltb 0 (num_remaining t)) cut t (λ _. omega (arith, flush-count ts p))
            (λ _. omega (arith, flush-count ts p)))

  -- So many samples of silence are behind the stream.
  fill_up-Sound :
      (stream : List R.dsp.Sample) (sent : List (FrameCopyTask R)) (s s' : FrameSync R)
      → fill_up c s ≡ ok s'
      → Ready c stream sent s
      → (n : ℕ) × Sound c
          (stream ++ take n (replicate (overlap_len (buffer_lengths c)) R.dsp.silence))
          sent
          s'.frame_queue
          s'.buffer
  unfolding fill_up
  fill_up-Sound stream sent s s' e h =
      let zeros = replicate (overlap_len s.buffer.lengths) R.dsp.silence in
      let filled = (read_signal s.buffer zeros (R.get_snr s.snr_est)).0 in
      let lengths = h.sound.follows.same_lengths in
      let Filled = λ (s : FrameSync R).
        (n : ℕ) × Sound c
          (stream ++ take n (replicate (overlap_len (buffer_lengths c)) R.dsp.silence)) sent
          s.frame_queue s.buffer in
      if-eq-intro Filled (buffer_current_empty s.buffer) (ok s) _ s' e
        (λ _ same. subst Filled (ok-injective same) (0, rw (append-nil stream) h.sound))
        (λ _ searched.
          let (r, processed, same) =
            >>=-eq-ok (process_buffer c filled _ s.frame_queue s.sequence_number) _ searched in
          subst Filled (ok-injective same) (
            num_copy s.buffer zeros,
            subst
                (λ (l : Lengths).
                  Sound c
                    (stream
                      ++ take (num_copy s.buffer zeros) (replicate (overlap_len l) R.dsp.silence))
                    sent r.0 filled)
                lengths
                (Sound-process_buffer c _ sent s.frame_queue filled _ s.sequence_number r processed
                  (Sound-read c stream sent s.frame_queue s.buffer zeros (R.get_snr s.snr_est)
                    h.sound)),
          ))

  stop-Copied :
      (stream : List R.dsp.Sample) (sent : List (FrameCopyTask R)) (s : FrameSync R)
      (last : List (FrameCopyTask R))
      → Valid c
      → stop c s ≡ ok last
      → Ready c stream sent s
      → All (Published c (silenced R.dsp c stream)) (sent ++ last)
        × ((p : AsmPosition) → count p (sent ++ last) ≤ 1)
  unfolding stop
  stop-Copied stream sent s last valid e h =
      let (filled, filling, same) = >>=-eq-ok (fill_up c s) _ e in
      let (n, searched) = fill_up-Sound stream sent s filled filling h in
      let zeros = replicate (c.asm_len - 1) R.dsp.silence in
      let (stay, send) = process_frame_queue c filled.extra_tags filled.buffer filled.frame_queue in
      let final =
        Sound-process_frame_queue c (stream ++ take n zeros) sent filled.frame_queue filled.buffer
          filled.extra_tags valid searched in
      let whole : stream ++ take n zeros ++ drop n zeros ≡ silenced R.dsp c stream =
        append_assoc stream (take n zeros) (drop n zeros)
        ∙ ap (λ ys. stream ++ ys) (take-append-drop n zeros) in
      subst
        (λ (last : List (FrameCopyTask R)).
          All (Published c (silenced R.dsp c stream)) (sent ++ last)
          × ((p : AsmPosition) → count p (sent ++ last) ≤ 1))
        (ok-injective same)
        (
          subst (All (Published c (silenced R.dsp c stream))) (append_assoc sent send (flush stay))
              (All-imp (sent ++ send ++ flush stay)
                (λ t d. (
                  subst (λ ys. Copied c ys t) whole
                      (Copied-append c (stream ++ take n zeros) (drop n zeros) t d.0),
                  d.1,
                ))
                (All-append (Published c (stream ++ take n zeros)) (sent ++ send) (flush stay)
                  (All-imp (sent ++ send) (λ t d. (d.0, λ some. omega (arith, d.1, some)))
                    final.delivered)
                  (flush-Copied (stream ++ take n zeros) stay final.queued))),
          λ p. omega (
            arith,
            final.once.single p,
            flush-count stay p,
            count-append p sent send,
            count-append p send (flush stay),
            count-append p sent (send ++ flush stay),
          ),
        )

module _ {R : Radio} (c : Config) (additional_asm : List AsmPosition)
    (calls : List (Tags R × List R.dsp.Sample)) (sent : List (FrameCopyTask R)) where
  session-Copied :
      Valid c
      → session c additional_asm calls ≡ ok sent
      → All (Published c (silenced R.dsp c (stream_of calls))) sent
        × ((p : AsmPosition) → count p sent ≤ 1)
  unfolding session
  session-Copied valid e =
      let (first, made, e1) = >>=-eq-ok (make_frame_sync c additional_asm) _ e in
      let (worked, ran, e2) = >>=-eq-ok (run_works c first calls) _ e1 in
      let (last, stopped, same) = >>=-eq-ok (stop c worked.0) _ e2 in
      let begun = make_frame_sync-Ready c additional_asm first valid made in
      let ready = run_works-Ready c [] [] first calls worked valid ran begun in
      subst
        (λ (sent : List (FrameCopyTask R)).
          All (Published c (silenced R.dsp c (stream_of calls))) sent
          × ((p : AsmPosition) → count p sent ≤ 1))
        (ok-injective same)
        (stop-Copied c (stream_of calls) worked.1 worked.0 last valid stopped ready)

  -- From its constructor to its end, as long as nothing raises, what the block publishes for a task is
  -- its frame: the soft bits that the task has copied, symbol by symbol, are those of the samples from
  -- behind the marker, less the head, on, each turned by the ambiguity of the marker and decided for
  -- some noise. The samples are those of all the calls of work(), with silence for the overlap behind
  -- them. The marker has two symbols at least, and a block holds it.
  pub session-frames :
      Valid c
      → session c additional_asm calls ≡ ok sent
      → All (Copied c (silenced R.dsp c (stream_of calls))) sent
  session-frames valid e = All-imp sent (λ t d. d.0) (session-Copied valid e).0

  -- Where no head is before the marker and a frame has one symbol at least: whatever the block
  -- publishes, from its constructor to its end, has its header computed, as long as nothing raises. The
  -- marker has two symbols at least, and a block holds it.
  pub session-headed :
      Valid c
      → num_head_symbols c ≡ 0
      → 0 < c.output_num_symbols
      → session c additional_asm calls ≡ ok sent
      → All (λ t. t.header_computed ≡ true) sent
  session-headed valid none some e =
      All-imp sent (λ t d. d.0.headed none (d.1 some)) (session-Copied valid e).0

  -- From its constructor to its end, as long as nothing raises, the block publishes at most one frame
  -- for an offset and an ambiguity. The marker has two symbols at least, and a block holds it.
  pub session-once :
      (p : AsmPosition) → Valid c → session c additional_asm calls ≡ ok sent → count p sent ≤ 1
  session-once p valid e = (session-Copied valid e).1 p

-- What the calls of work() of a new block publish, as long as nothing raises, are whole frames: each
-- task has copied as many symbols as a frame puts out, in order, from behind the marker, less the head,
-- on, each turned by the ambiguity of the marker and decided for some noise. The marker has two symbols
-- at least, and a block holds it.
pub run_works-Delivered :
    {R : Radio} (c : Config) (additional_asm : List AsmPosition)
    (calls : List (Tags R × List R.dsp.Sample)) (s : FrameSync R)
    (r : FrameSync R × List (FrameCopyTask R))
    → Valid c
    → make_frame_sync c additional_asm ≡ ok s
    → run_works c s calls ≡ ok r
    → All (Delivered c (stream_of calls)) r.1
run_works-Delivered c additional_asm calls s r valid made ran =
    (run_works-Ready c [] [] s calls r valid ran
      (make_frame_sync-Ready c additional_asm s valid made)).sound.delivered
