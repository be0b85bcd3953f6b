-- ===== src/FrameSearch/Waits.antt =====
-- What a queued frame waits for when work() has returned.
use gr_ccsds.Prelude.{
  ◌≤◌, ◌<◌, ◌≡◌, ◌⊎◌, inl, inr, true, List, ◌++◌, ok, >>=-eq-ok, ok-injective, subst, All, All-imp,
  if◌then◌else◌, ◌==◌, length, arith,
}
use gr_ccsds.SyncBuffer.Defs.{SyncBuffer, history_len}
use gr_ccsds.FrameSearch.Tasks.{Radio, Config, FrameCopyTask, data_complete, Tags}
use gr_ccsds.FrameSearch.Process.{process_frame_queue}
use gr_ccsds.FrameSearch.Work.{add_tags, buffer_lengths, FrameSync, work_loop, work}
use gr_ccsds.FrameSearch.Reach.{CaughtUp}
use gr_ccsds.FrameSearch.Sound.{Valid, Sound, Sound-read_length, Sound-CaughtUp}
use gr_ccsds.FrameSearch.Loop.{Ready, work_loop-Ready}

module _ {R : Radio} (c : Config) where
  -- The task is complete, or its next sample is behind the stream.
  abbrev pub Waits : List R.dsp.Sample → FrameCopyTask R → Type 0
  Waits stream t = (data_complete t ≡ true) ⊎ (length stream ≤ t.copy_from)

  CaughtUp-Waits :
      (stream : List R.dsp.Sample) (sent queue : List (FrameCopyTask R)) (b : SyncBuffer R.dsp)
      (t : FrameCopyTask R)
      → Sound c stream sent queue b
      → CaughtUp c b t
      → Waits stream t
  CaughtUp-Waits stream sent queue b t h (inl complete) = inl complete
  CaughtUp-Waits stream sent queue b t h (inr (from, headed)) =
      inr (omega (arith, from, Sound-read_length c stream sent queue b h))

  -- Where the block has a history, of earlier frames or of a head: from a block that keeps its invariant,
  -- when work() has returned, each queued frame is complete, or has copied all its samples that were
  -- read. The marker has two symbols at least, and a block holds it.
  pub work-Waits :
      (stream : List R.dsp.Sample) (sent : List (FrameCopyTask R)) (s : FrameSync R) (tags : Tags R)
      (input : List R.dsp.Sample) (r : FrameSync R × List (FrameCopyTask R))
      → Valid c
      → 0 < history_len (buffer_lengths c)
      → work c s tags input ≡ ok r
      → Ready c stream sent s
      → All (Waits (stream ++ input)) r.0.frame_queue
  unfolding work
  work-Waits stream sent s tags input r valid long e h =
      let first = record s {
        extra_tags = if s.nitems_read == 0 then add_tags R R.make_dict tags else s.extra_tags;
      } in
      let begun : Ready c stream sent first = record { sound = h.sound; room = h.room } in
      let (last, looped, same) = >>=-eq-ok (work_loop (length input) c first input) _ e in
      let (ready, done) =
        work_loop-Ready c (length input) stream sent first input last valid (omega arith) looped
          begun in
      subst
        (λ (r : FrameSync R × List (FrameCopyTask R)).
          All (Waits (stream ++ input)) r.0.frame_queue)
        (ok-injective same)
        (All-imp (process_frame_queue c last.0.extra_tags last.0.buffer last.0.frame_queue).0
          (λ t d.
            CaughtUp-Waits (stream ++ input) (sent ++ last.1) last.0.frame_queue last.0.buffer t
              ready.sound d)
          (Sound-CaughtUp c (stream ++ input) (sent ++ last.1) last.0.frame_queue last.0.buffer
            last.0.extra_tags ready.sound long))
