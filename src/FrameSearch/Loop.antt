-- ===== src/FrameSearch/Loop.antt =====
-- lib/frame_sync_impl.cc: the loop of work() and the invariant of the block.
use gr_ccsds.Prelude.{
  ℕ, zero, suc, ◌≤◌, ◌<◌, ◌≡◌, refl, sym, ap, ◌∙◌, subst, List, [], ◌∷◌, ◌++◌, ok, if-eq-intro,
  >>=-eq-ok, ok-injective, arith, take, drop, length, length-take, length-drop, append-nil,
  append_assoc, take-append-drop,
}
use gr_ccsds.SyncBuffer.Defs.{Dsp, SyncBuffer, Lengths, buffer_len, full, advance, num_copy}
use gr_ccsds.SyncBuffer.Queries.{num_symbols_missing}
use gr_ccsds.SyncBuffer.Window.{advance-eq-ok}
use gr_ccsds.FrameSearch.Tasks.{Radio, Config, FrameCopyTask}
use gr_ccsds.FrameSearch.Process.{pick_smaller, process_frame_queue}
use gr_ccsds.FrameSearch.Search.{process_buffer}
use gr_ccsds.FrameSearch.Work.{buffer_lengths, FrameSync, read, on_full, work_round, work_loop}
use gr_ccsds.FrameSearch.Sound.{
  Valid, Sound, Sound-read, Sound-advance, Sound-process_frame_queue, Sound-CaughtUp,
}
use gr_ccsds.FrameSearch.Queued.{Sound-process_buffer}

take-all {ℓ} : {A : Type ℓ} (n : ℕ) (xs : List A) → length xs ≤ n → take n xs ≡ xs
take-all zero [] h = refl
take-all (suc n) [] h = refl
take-all zero (x ∷ xs) h = absurd (omega arith)
take-all (suc n) (x ∷ xs) h = ap (λ t. x ∷ t) (take-all n xs (omega arith))

-- What fits is read whole.
num_copy-fits :
    {V : Dsp} (b : SyncBuffer V) (input : List V.Sample)
    → length input ≤ num_symbols_missing b
    → num_copy b input ≡ length input
num_copy-fits b input fits = ground arith

advance-room :
    {V : Dsp} (c : Config) (b b' : SyncBuffer V)
    → Valid c
    → b.lengths ≡ buffer_lengths c
    → advance b ≡ ok b'
    → b'.num_items < buffer_len b'.lengths
advance-room {V} c b b' valid lengths e =
    let (at_end, same) = advance-eq-ok b b' e in
    subst (λ (b : SyncBuffer V). b.num_items < buffer_len b.lengths) same
      (omega (arith, at_end, valid.marker, valid.longer, ap (λ (l : Lengths). l.block_len) lengths))

module _ {R : Radio} (c : Config) where
  open R use {dsp}

  -- The invariant of the block between two rounds, with room for one sample at least.
  pub record Ready (stream : List R.dsp.Sample) (sent : List (FrameCopyTask R)) (s : FrameSync R)
      : Type 0 where
    pub sound : Sound c stream sent s.frame_queue s.buffer
    pub room : s.buffer.num_items < buffer_len s.buffer.lengths

  read-Sound :
      (stream : List R.dsp.Sample) (sent : List (FrameCopyTask R)) (s : FrameSync R)
      (input : List R.dsp.Sample)
      → length input ≤ num_symbols_missing s.buffer
      → Sound c stream sent s.frame_queue s.buffer
      → Sound c (stream ++ input) sent s.frame_queue (read s input).buffer
  read-Sound stream sent s input fits h =
      let all : take (num_copy s.buffer input) input ≡ input =
        take-all (num_copy s.buffer input) input
          (omega (arith, num_copy-fits s.buffer input fits)) in
      subst (λ more. Sound c (stream ++ more) sent s.frame_queue (read s input).buffer) all
        (Sound-read c stream sent s.frame_queue s.buffer input _ h)

  on_full-Ready :
      (stream : List R.dsp.Sample) (sent : List (FrameCopyTask R)) (s : FrameSync R)
      (r : FrameSync R × List (FrameCopyTask R))
      → Valid c
      → on_full c s ≡ ok r
      → Sound c stream sent s.frame_queue s.buffer
      → Ready stream (sent ++ r.1) r.0
  unfolding on_full
  on_full-Ready stream sent s r valid e h =
      let (queued, processed, e1) =
        >>=-eq-ok (process_buffer c s.buffer c.block_len s.frame_queue s.sequence_number) _ e in
      let (stay, send) = process_frame_queue c s.extra_tags s.buffer queued.0 in
      let (b, advanced, same) = >>=-eq-ok (advance s.buffer) _ e1 in
      let searched =
        Sound-process_buffer c stream sent s.frame_queue s.buffer c.block_len s.sequence_number
          queued processed h in
      let copied =
        Sound-process_frame_queue c stream sent queued.0 s.buffer s.extra_tags valid searched in
      let moved =
        Sound-advance c stream (sent ++ send) stay s.buffer b valid advanced
          (Sound-CaughtUp c stream sent queued.0 s.buffer s.extra_tags searched) copied in
      subst (λ (r : FrameSync R × List (FrameCopyTask R)). Ready stream (sent ++ r.1) r.0)
        (ok-injective same)
        (record {
          sound = moved;
          room = advance-room c s.buffer b valid h.follows.same_lengths advanced;
        })

  pub work_round-Ready :
      (stream : List R.dsp.Sample) (sent : List (FrameCopyTask R)) (s : FrameSync R)
      (input : List R.dsp.Sample) (r : FrameSync R × List (FrameCopyTask R))
      → Valid c
      → length input ≤ num_symbols_missing s.buffer
      → work_round c s input ≡ ok r
      → Sound c stream sent s.frame_queue s.buffer
      → Ready (stream ++ input) (sent ++ r.1) r.0
  unfolding work_round
  work_round-Ready stream sent s input r valid fits e h =
      let after = read-Sound stream sent s input fits h in
      if-eq-intro
        (λ (r : FrameSync R × List (FrameCopyTask R)). Ready (stream ++ input) (sent ++ r.1) r.0)
        (full (read s input).buffer) (on_full c (read s input)) (ok (read s input, [])) r e
        (λ _ done. on_full-Ready (stream ++ input) sent (read s input) r valid done after)
        (λ partial done.
          subst
            (λ (r : FrameSync R × List (FrameCopyTask R)).
              Ready (stream ++ input) (sent ++ r.1) r.0)
            (ok-injective done)
            (record {
              sound =
                  subst (λ ts. Sound c (stream ++ input) ts s.frame_queue (read s input).buffer)
                    (sym (append-nil sent)) after;
              room = ground (arith, after.follows.within);
            }))

  -- One sample is copied in a round at least.
  pub num_copy-round :
      (s : FrameSync R) (input : List R.dsp.Sample)
      → s.buffer.num_items < buffer_len s.buffer.lengths
      → 0 < length input
      → (let k = pick_smaller (length input) (num_symbols_missing s.buffer) in
          (0 < k) × (k ≤ length input) × (k ≤ num_symbols_missing s.buffer))
  num_copy-round s input room some = ground arith

  -- As many rounds as there are samples process them all.
  pub work_loop-Ready :
      (fuel : ℕ) (stream : List R.dsp.Sample) (sent : List (FrameCopyTask R)) (s : FrameSync R)
      (input : List R.dsp.Sample) (r : FrameSync R × List (FrameCopyTask R) × List R.dsp.Sample)
      → Valid c
      → length input ≤ fuel
      → work_loop fuel c s input ≡ ok r
      → Ready stream sent s
      → Ready (stream ++ input) (sent ++ r.1) r.0 × (r.2 ≡ [])
  unfolding work_loop
  work_loop-Ready fuel stream sent s [] r valid enough e h =
      subst
        (λ (r : FrameSync R × List (FrameCopyTask R) × List R.dsp.Sample).
          Ready (stream ++ []) (sent ++ r.1) r.0 × (r.2 ≡ []))
        (ok-injective e) (rw (append-nil stream, append-nil sent) h, refl)
  work_loop-Ready zero stream sent s (x ∷ xs) r valid enough e h = absurd (omega arith)
  work_loop-Ready (suc fuel) stream sent s (x ∷ xs) r valid enough e h =
      let input = x ∷ xs in
      let k = pick_smaller (length input) (num_symbols_missing s.buffer) in
      let (positive, within, fits) = num_copy-round s input h.room (omega arith) in
      let (first, one, e1) = >>=-eq-ok (work_round c s (take k input)) _ e in
      let (last, others, same) = >>=-eq-ok (work_loop fuel c first.0 (drop k input)) _ e1 in
      let begun =
        work_round-Ready stream sent s (take k input) first valid
          (omega (arith, length-take k input)) one h.sound in
      let (ready, done) =
        work_loop-Ready fuel (stream ++ take k input) (sent ++ first.1) first.0 (drop k input) last
          valid (omega (arith, length-drop k input)) others begun in
      let whole : stream ++ take k input ++ drop k input ≡ stream ++ input =
        append_assoc stream (take k input) (drop k input)
        ∙ ap (λ ys. stream ++ ys) (take-append-drop k input) in
      subst
        (λ (r : FrameSync R × List (FrameCopyTask R) × List R.dsp.Sample).
          Ready (stream ++ input) (sent ++ r.1) r.0 × (r.2 ≡ []))
        (ok-injective same)
        (
          subst (λ (ts : List (FrameCopyTask R)). Ready (stream ++ input) ts last.0)
              (append_assoc sent first.1 last.1)
              (subst (λ ys. Ready ys (sent ++ first.1 ++ last.1) last.0) whole ready),
          done,
        )
