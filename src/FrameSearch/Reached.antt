-- ===== src/FrameSearch/Reached.antt =====
-- lib/frame_sync_impl.cc: the calls of work() and the invariant of the block.
use gr_ccsds.Prelude.{
  ◌≡◌, subst, List, [], ◌∷◌, ◌++◌, ok, >>=-eq-ok, ok-injective, if◌then◌else◌, ◌==◌, arith, length,
  append-nil, append_assoc,
}
use gr_ccsds.FrameSearch.Tasks.{Radio, AsmPosition, Config, FrameCopyTask, Tags}
use gr_ccsds.FrameSearch.Process.{process_frame_queue}
use gr_ccsds.FrameSearch.Search.{queue_secondary}
use gr_ccsds.FrameSearch.Work.{
  add_tags, FrameSync, make_frame_sync, work_loop, work, run_works, stream_of,
}
use gr_ccsds.FrameSearch.Sound.{Valid, Sound, Sound-process_frame_queue}
use gr_ccsds.FrameSearch.Queued.{Sound-make}
use gr_ccsds.FrameSearch.Loop.{Ready, work_loop-Ready}

module _ {R : Radio} (c : Config) where
  open R use {dsp}

  pub make_frame_sync-Ready :
      (additional_asm : List AsmPosition) (s : FrameSync R)
      → Valid c
      → make_frame_sync c additional_asm ≡ ok s
      → Ready c [] [] s
  unfolding make_frame_sync
  make_frame_sync-Ready additional_asm s valid e =
      let (queue, queued, same) = >>=-eq-ok (queue_secondary c additional_asm []) _ e in
      subst (Ready c [] []) (ok-injective same) (record {
        sound = Sound-make c additional_asm queue (omega (arith, valid.marker)) queued;
        room = omega (arith, valid.marker, valid.longer);
      })

  pub work-Ready :
      (stream : List R.dsp.Sample) (sent : List (FrameCopyTask R)) (s : FrameSync R) (tags : Tags R)
      (input : List R.dsp.Sample) (r : FrameSync R × List (FrameCopyTask R))
      → Valid c
      → work c s tags input ≡ ok r
      → Ready c stream sent s
      → Ready c (stream ++ input) (sent ++ r.1) r.0
  unfolding work
  work-Ready stream sent s tags input r valid e h =
      let first = record s {
        extra_tags = if s.nitems_read == 0 then add_tags R R.make_dict tags else s.extra_tags;
      } in
      let begun : Ready c stream sent first = record { sound = h.sound; room = h.room } in
      let (last, looped, same) = >>=-eq-ok (work_loop (length input) c first input) _ e in
      let (ready, done) =
        work_loop-Ready c (length input) stream sent first input last valid (omega arith) looped
          begun in
      let (stay, send) = process_frame_queue c last.0.extra_tags last.0.buffer last.0.frame_queue in
      subst
        (λ (r : FrameSync R × List (FrameCopyTask R)). Ready c (stream ++ input) (sent ++ r.1) r.0)
        (ok-injective same)
        (record {
          sound =
              subst
                (λ (ts : List (FrameCopyTask R)). Sound c (stream ++ input) ts stay last.0.buffer)
                (append_assoc sent last.1 send)
                (Sound-process_frame_queue c (stream ++ input) (sent ++ last.1) last.0.frame_queue
                  last.0.buffer last.0.extra_tags valid ready.sound);
          room = ready.room;
        })

  pub run_works-Ready :
      (stream : List R.dsp.Sample) (sent : List (FrameCopyTask R)) (s : FrameSync R)
      (calls : List (Tags R × List R.dsp.Sample)) (r : FrameSync R × List (FrameCopyTask R))
      → Valid c
      → run_works c s calls ≡ ok r
      → Ready c stream sent s
      → Ready c (stream ++ stream_of calls) (sent ++ r.1) r.0
  unfolding run_works
  run_works-Ready stream sent s [] r valid e h =
      subst (λ (r : FrameSync R × List (FrameCopyTask R)). Ready c (stream ++ []) (sent ++ r.1) r.0)
        (ok-injective e) (rw (append-nil stream, append-nil sent) h)
  run_works-Ready stream sent s ((tags, input) ∷ calls) r valid e h =
      let (first, worked, e1) = >>=-eq-ok (work c s tags input) _ e in
      let (last, others, same) = >>=-eq-ok (run_works c first.0 calls) _ e1 in
      let begun = work-Ready stream sent s tags input first valid worked h in
      let ready =
        run_works-Ready (stream ++ input) (sent ++ first.1) first.0 calls last valid others begun in
      subst
        (λ (r : FrameSync R × List (FrameCopyTask R)).
          Ready c (stream ++ (input ++ stream_of calls)) (sent ++ r.1) r.0)
        (ok-injective same)
        (subst (λ ys. Ready c ys (sent ++ (first.1 ++ last.1)) last.0)
          (append_assoc stream input (stream_of calls))
          (subst
            (λ (ts : List (FrameCopyTask R)).
              Ready c (stream ++ input ++ stream_of calls) ts last.0)
            (append_assoc sent first.1 last.1) ready))
