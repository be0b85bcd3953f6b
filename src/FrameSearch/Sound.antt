-- ===== src/FrameSearch/Sound.antt =====
-- lib/frame_sync_impl.cc: the invariant of the block, on its buffer, the stream, the queue of frames and
-- the frames that were sent.
use gr_ccsds.Prelude.{
  ◌+◌, ◌≤◌, ◌<◌, ◌≡◌, ap, ◌∙◌, subst, ◌⊎◌, inl, inr, List, [], ◌∷◌, ◌++◌, ok, All, All-append,
  All-imp, if-intro, &&-eq-true, ltb→lt, ==_iff, arith, take, length, append_assoc,
}
use gr_ccsds.SyncBuffer.Defs.{
  SyncBuffer, Lengths, history_len, advance, read_signal, offset_last_symbol, num_copy,
}
use gr_ccsds.SyncBuffer.Holds.{Follows, read_signal-Follows}
use gr_ccsds.SyncBuffer.Window.{
  after_silence, Follows-length, Follows-window, shifted, shifted-Follows, advance-eq-ok,
}
use gr_ccsds.FrameSearch.Tasks.{Radio, Config, Header, FrameCopyTask, data_complete}
use gr_ccsds.FrameSearch.Process.{process_task, process_frame_queue, indx_threshold, is_sendable}
use gr_ccsds.FrameSearch.Work.{buffer_lengths}
use gr_ccsds.FrameSearch.Copied.{Answers, Copied, Copied-append}
use gr_ccsds.FrameSearch.Filled.{process_task-Copied}
use gr_ccsds.FrameSearch.Reach.{
  InReach, CaughtUp, CaughtUp-InReach, CaughtUp-InReach_same, process_frame_queue-CaughtUp,
}
use gr_ccsds.FrameSearch.Once.{count-append, Once, process_frame_queue-count}

-- A marker of two symbols at least, and blocks that hold it.
pub record Valid (c : Config) : Type 0 where
  pub marker : 2 ≤ c.asm_len
  pub longer : c.asm_len ≤ c.block_len

module _ {R : Radio} (c : Config) where
  open R use {dsp}

  -- A task whose frame is sent whole.
  abbrev pub Delivered : List R.dsp.Sample → FrameCopyTask R → Type 0
  Delivered stream t = Copied c stream t × (t.num_symbols_copied ≡ c.output_num_symbols)

  pub record Sound (stream : List R.dsp.Sample) (sent queue : List (FrameCopyTask R))
      (b : SyncBuffer R.dsp) : Type 0 where
    pub follows : Follows (buffer_lengths c) b (after_silence R.dsp (buffer_lengths c) stream)
    -- The first samples are read, or the buffer has never advanced.
    pub begun : (b.offset_counter ≡ 0) ⊎ (history_len (buffer_lengths c) < b.num_items)
    pub once : Once (indx_threshold c b) sent queue
    pub queued : All (Copied c stream) queue
    pub delivered : All (Delivered stream) sent
    -- Where the buffer has a history, no sample of a queued frame leaves it before it is copied.
    pub reach : 0 < history_len (buffer_lengths c) → All (InReach b) queue

  Sound-Answers :
      (stream : List R.dsp.Sample) (sent queue : List (FrameCopyTask R)) (b : SyncBuffer R.dsp)
      → Sound stream sent queue b
      → Answers stream b
  Sound-Answers stream sent queue b h =
      let l = buffer_lengths c in
      let same = ap history_len h.follows.same_lengths in
      λ p positive starts stops.
        let read : p < length stream = elim h.begun [
          | inl new ↦ omega (arith, Follows-length l b stream p h.follows)
          | inr some ↦ omega (arith, Follows-length l b stream p h.follows)
        ] in
        (read, Follows-window l b stream p h.follows starts read)

  pub Sound-read :
      (stream : List R.dsp.Sample) (sent queue : List (FrameCopyTask R)) (b : SyncBuffer R.dsp)
      (input : List R.dsp.Sample) (snr : R.dsp.Snr)
      → Sound stream sent queue b
      → Sound (stream ++ take (num_copy b input) input) sent queue (read_signal b input snr).0
  unfolding read_signal
  Sound-read stream sent queue b input snr h =
      let l = buffer_lengths c in
      let taken = take (num_copy b input) input in
      record {
        follows =
            subst (Follows l (read_signal b input snr).0) (append_assoc _ stream taken)
              (read_signal-Follows l b (after_silence R.dsp l stream) input h.follows snr);
        begun = elim h.begun [ inl new ↦ inl new | inr some ↦ inr (omega arith) ];
        once = h.once;
        queued = All-imp queue (λ t. Copied-append c stream taken t) h.queued;
        delivered = All-imp sent (λ t d. (Copied-append c stream taken t d.0, d.1)) h.delivered;
        reach = h.reach;
      }

  -- How many samples the buffer knows.
  pub Sound-read_length :
      (stream : List R.dsp.Sample) (sent queue : List (FrameCopyTask R)) (b : SyncBuffer R.dsp)
      → Sound stream sent queue b
      → length stream ≤ offset_last_symbol b + 1
  Sound-read_length stream sent queue b h =
      omega (arith, Follows-length (buffer_lengths c) b stream 0 h.follows)

  pub Sound-CaughtUp :
      (stream : List R.dsp.Sample) (sent queue : List (FrameCopyTask R)) (b : SyncBuffer R.dsp)
      (tags : Header R)
      → Sound stream sent queue b
      → 0 < history_len (buffer_lengths c)
      → All (CaughtUp c b) (process_frame_queue c tags b queue).0
  Sound-CaughtUp stream sent queue b tags h long =
      process_frame_queue-CaughtUp c tags b queue
        (All-imp queue (λ t d. omega (arith, d.whole, d.within)) h.queued) (h.reach long)

  pub Sound-advance :
      (stream : List R.dsp.Sample) (sent queue : List (FrameCopyTask R)) (b b' : SyncBuffer R.dsp)
      → Valid c
      → advance b ≡ ok b'
      → (0 < history_len (buffer_lengths c) → All (CaughtUp c b) queue)
      → Sound stream sent queue b
      → Sound stream sent queue b'
  Sound-advance stream sent queue b b' valid e caught h =
      let l = buffer_lengths c in
      let (at_end, same) = advance-eq-ok b b' e in
      subst (Sound stream sent queue) same (record {
        follows = shifted-Follows l b (after_silence R.dsp l stream) at_end h.follows;
        begun = inr (
            omega (
              arith,
              ap history_len h.follows.same_lengths,
              ap (λ (l : Lengths). l.asm_len) h.follows.same_lengths,
              valid.marker,
            ));
        once = record {
          single = h.once.single;
          before = All-imp sent (λ t earlier. omega arith) h.once.before;
        };
        queued = h.queued;
        delivered = h.delivered;
        reach = λ long.
            All-imp queue
              (λ t d.
                CaughtUp-InReach c b (shifted b) t
                  (omega (
                    arith,
                    at_end,
                    long,
                    valid.longer,
                    ap (λ (l : Lengths). l.block_len) h.follows.same_lengths,
                    ap history_len h.follows.same_lengths,
                    valid.marker,
                    ap (λ (l : Lengths). l.asm_len) h.follows.same_lengths,
                  ))
                  d)
              (caught long);
      })

  process_frame_queue-Copied :
      (stream : List R.dsp.Sample) (tags : Header R) (b : SyncBuffer R.dsp)
      (queue : List (FrameCopyTask R))
      → 1 ≤ c.asm_len
      → Answers stream b
      → All (Copied c stream) queue
      → (let (stay, send) = process_frame_queue c tags b queue in
          All (Copied c stream) stay
          × All (λ t. Delivered stream t × (t.asm_pos.offset < indx_threshold c b)) send)
  unfolding process_frame_queue
  process_frame_queue-Copied stream tags b [] marker answers h = (tt, tt)
  process_frame_queue-Copied stream tags b (t ∷ ts) marker answers h =
      let done = process_task c tags b t in
      let copied = process_task-Copied c stream tags b t marker answers h.0 in
      let (stay, send) = process_frame_queue-Copied stream tags b ts marker answers h.1 in
      if-intro
        (λ (r : List (FrameCopyTask R) × List (FrameCopyTask R)).
          All (Copied c stream) r.0
          × All (λ t. Delivered stream t × (t.asm_pos.offset < indx_threshold c b)) r.1)
        (is_sendable c b done) _ _
        (λ able.
          let (complete, early) = &&-eq-true (data_complete done) _ able in
          (
            stay,
            (
              (
                (
                  copied,
                  (==_iff done.num_symbols_copied done.num_symbols_total).0 complete ∙ copied.whole,
                ),
                ltb→lt done.asm_pos.offset _ early,
              ),
              send,
            ),
          ))
        (λ _. ((copied, stay), send))

  pub Sound-process_frame_queue :
      (stream : List R.dsp.Sample) (sent queue : List (FrameCopyTask R)) (b : SyncBuffer R.dsp)
      (tags : Header R)
      → Valid c
      → Sound stream sent queue b
      → (let (stay, send) = process_frame_queue c tags b queue in
          Sound stream (sent ++ send) stay b)
  Sound-process_frame_queue stream sent queue b tags valid h =
      let (stay, send) = process_frame_queue c tags b queue in
      let (left, gone) =
        process_frame_queue-Copied stream tags b queue (omega (arith, valid.marker))
          (Sound-Answers stream sent queue b h) h.queued in
      record {
        follows = h.follows;
        begun = h.begun;
        once = record {
          single = λ p. omega (
            arith,
            h.once.single p,
            count-append p sent send,
            process_frame_queue-count c tags b queue p,
          );
          before = All-append _ sent send h.once.before (All-imp send (λ t d. d.1) gone);
        };
        queued = left;
        delivered = All-append _ sent send h.delivered (All-imp send (λ t d. d.0) gone);
        reach = λ long.
            All-imp stay (λ t d. CaughtUp-InReach_same c b t d)
              (Sound-CaughtUp stream sent queue b tags h long);
      }
