-- ===== src/FrameSearch/Reach.antt =====
-- lib/frame_sync_impl.cc: whether the buffer still has the samples that a queued frame waits for.
use gr_ccsds.Prelude.{
  ◌+◌, ◌-◌, ◌≤◌, ◌<◌, ◌≡◌, refl, ◌⊎◌, inl, inr, Bool, Bool-cases, true, false, ◌&&◌, if-intro, List,
  [], ◌∷◌, All, if◌then◌else◌, leb, ◌==◌, arith,
}
use gr_ccsds.SyncBuffer.Defs.{SyncBuffer, offset_start, offset_last_symbol, history_len}
use gr_ccsds.FrameSearch.Tasks.{
  Radio, AsmPosition, Config, Header, FrameCopyTask, make_task, data_complete, num_remaining,
}
use gr_ccsds.FrameSearch.Process.{
  pick_smaller, start_frame, copy_symbols, finish_frame, process_task, is_sendable,
  process_frame_queue, indx_threshold,
}
use gr_ccsds.FrameSearch.Work.{buffer_lengths}
use gr_ccsds.FrameSearch.Copied.{copy_start-head}

module _ {R : Radio} where
  open R use {dsp}

  -- The task is complete, or the buffer still has the first sample that it waits for.
  abbrev pub InReach : SyncBuffer R.dsp → FrameCopyTask R → Type 0
  InReach b t =
      (data_complete t ≡ true)
      ⊎ (offset_start b
          ≤ (if t.header_computed then t.copy_from else pick_smaller t.asm_pos.offset t.copy_from))

  abbrev pub Headed : Config → SyncBuffer R.dsp → FrameCopyTask R → Type 0
  Headed c b t =
      (t.header_computed ≡ true)
      ⊎ ((offset_last_symbol b < t.asm_pos.offset + c.asm_len)
          × (offset_start b ≤ t.asm_pos.offset))

  -- The task is complete, or waits for samples behind those of the buffer.
  abbrev pub CaughtUp : Config → SyncBuffer R.dsp → FrameCopyTask R → Type 0
  CaughtUp c b t = (data_complete t ≡ true) ⊎ ((offset_last_symbol b < t.copy_from) × Headed c b t)

  finish_frame-CaughtUp :
      (c : Config) (b : SyncBuffer R.dsp) (t : FrameCopyTask R)
      → CaughtUp c b t
      → CaughtUp c b (finish_frame c t)
  finish_frame-CaughtUp c b t h = if-intro (CaughtUp c b) (data_complete t) _ t (λ _. h) (λ _. h)

  -- Starting a frame leaves what it copies.
  start_frame-Headed :
      (c : Config) (tags : Header R) (b : SyncBuffer R.dsp) (t : FrameCopyTask R)
      → (t.header_computed ≡ false → offset_start b ≤ t.asm_pos.offset)
      → Headed c b (start_frame c tags b t)
        × ((start_frame c tags b t).copy_from ≡ t.copy_from)
        × ((start_frame c tags b t).num_symbols_copied ≡ t.num_symbols_copied)
        × ((start_frame c tags b t).num_symbols_total ≡ t.num_symbols_total)
  start_frame-Headed c tags b t starts =
      if-intro
        (λ (u : FrameCopyTask R).
          Headed c b u
          × (u.copy_from ≡ t.copy_from)
          × (u.num_symbols_copied ≡ t.num_symbols_copied)
          × (u.num_symbols_total ≡ t.num_symbols_total))
        _ _ t (λ _. (inl refl, refl, refl, refl))
        (λ late. (
          elim (Bool-cases t.header_computed) [
            | inl old ↦ inl old
            | inr new ↦ inr (ground (arith, late, starts new, new), starts new)
          ],
          refl,
          refl,
          refl,
        ))

  process_task-CaughtUp :
      (c : Config) (tags : Header R) (b : SyncBuffer R.dsp) (t : FrameCopyTask R)
      → t.num_symbols_copied ≤ t.num_symbols_total
      → InReach b t
      → CaughtUp c b (process_task c tags b t)
  unfolding process_task
  process_task-CaughtUp c tags b t within h =
      let begun = start_frame c tags b t in
      let k = pick_smaller (num_remaining t) (offset_last_symbol b + 1 - t.copy_from) in
      let first =
        if t.header_computed then t.copy_from else pick_smaller t.asm_pos.offset t.copy_from in
      let P = CaughtUp c b in
      if-intro P (data_complete t) t _ (λ complete. inl complete)
        (λ open_.
          let reached : offset_start b ≤ first = elim h [
            | inl done ↦ ground (arith, done, open_)
            | inr r ↦ r
          ] in
          let starts : (t.header_computed ≡ false → offset_start b ≤ t.asm_pos.offset) =
            λ new. ground (arith, reached, new) in
          let (headed, from, copied, total) = start_frame-Headed c tags b t starts in
          if-intro P (leb (offset_start b) first && leb first (offset_last_symbol b))
            (if k == 0 then begun else finish_frame c (copy_symbols b k begun)) (finish_frame c t)
            (λ inside.
              if-intro P (k == 0) begun (finish_frame c (copy_symbols b k begun))
                (λ none. inr (ground (arith, none, open_, within, from), headed))
                (λ some.
                  finish_frame-CaughtUp c b (copy_symbols b k begun)
                    (elim (Bool-cases (data_complete (copy_symbols b k begun))) [
                      | inl full ↦ inl full
                      | inr short ↦ inr (ground (arith, short, from, copied, total, within), headed)
                    ])))
            (λ outside. finish_frame-CaughtUp c b t (
              inr (
                ground (arith, outside, reached),
                elim (Bool-cases t.header_computed) [
                  | inl old ↦ inl old
                  | inr new ↦ inr (ground (arith, outside, reached, new), starts new)
                ],
              ))))

  -- What is caught up stays in reach as long as no more is shifted out than the history and the marker
  -- hold.
  pub CaughtUp-InReach :
      (c : Config) (b b' : SyncBuffer R.dsp) (t : FrameCopyTask R)
      → offset_start b' + c.asm_len ≤ offset_last_symbol b + 1
      → CaughtUp c b t
      → InReach b' t
  CaughtUp-InReach c b b' t room (inl complete) = inl complete
  CaughtUp-InReach c b b' t room (inr (from, inl old)) = inr (ground (arith, room, from, old))
  CaughtUp-InReach c b b' t room (inr (from, inr (late, start))) =
      inr (ground (arith, room, from, late))

  -- In the same buffer.
  pub CaughtUp-InReach_same :
      (c : Config) (b : SyncBuffer R.dsp) (t : FrameCopyTask R) → CaughtUp c b t → InReach b t
  CaughtUp-InReach_same c b t (inl complete) = inl complete
  CaughtUp-InReach_same c b t (inr (from, inl old)) = inr (ground (arith, from, old))
  CaughtUp-InReach_same c b t (inr (from, inr (late, start))) = inr (ground (arith, from, start))

  pub process_frame_queue-CaughtUp :
      (c : Config) (tags : Header R) (b : SyncBuffer R.dsp) (queue : List (FrameCopyTask R))
      → All (λ t. t.num_symbols_copied ≤ t.num_symbols_total) queue
      → All (InReach b) queue
      → All (CaughtUp c b) (process_frame_queue c tags b queue).0
  unfolding process_frame_queue
  process_frame_queue-CaughtUp c tags b [] within h = tt
  process_frame_queue-CaughtUp c tags b (t ∷ ts) within h =
      let done = process_task c tags b t in
      let caught = process_task-CaughtUp c tags b t within.0 h.0 in
      let rest = process_frame_queue-CaughtUp c tags b ts within.1 h.1 in
      if-intro (λ (r : List (FrameCopyTask R) × List (FrameCopyTask R)). All (CaughtUp c b) r.0)
        (is_sendable c b done) _ _ (λ _. rest) (λ _. (caught, rest))

-- A task that is queued for a marker of the window is in reach.
pub make_task-InReach :
    (R : Radio) (c : Config) (b : SyncBuffer R.dsp) (info : AsmPosition) (primary : Bool)
    → history_len b.lengths ≡ history_len (buffer_lengths c)
    → indx_threshold c b ≤ info.offset
    → InReach b (make_task R c info primary)
make_task-InReach R c b info primary same late =
    inr (ground (arith, same, late, copy_start-head c info.offset))
