-- ===== src/FrameSearch/Filled.antt =====
-- lib/frame_sync_impl.cc: the loop over the tasks, and what each of them has copied after it.
use gr_ccsds.Prelude.{
  ℕ, ◌+◌, ◌-◌, ◌/◌, ◌≤◌, ◌<◌, ◌≡◌, refl, ap, ◌∙◌, inl, inr, Bool-cases, false, true, ◌&&◌, if-intro,
  List, [], get_or, if◌then◌else◌, leb, ◌==◌, arith,
}
use gr_ccsds.SyncBuffer.Defs.{SyncBuffer, offset_start, offset_last_symbol, signal_at}
use gr_ccsds.SyncBuffer.Queries.{snr}
use gr_ccsds.SyncBuffer.Writes.{length-fill, get_or-fill_outside, get_or-fill}
use gr_ccsds.SyncBuffer.Holds.{index_cases}
use gr_ccsds.FrameSearch.Tasks.{
  Radio, Config, Header, FrameCopyTask, num_head_symbols, copy_start, data_complete, num_remaining,
}
use gr_ccsds.FrameSearch.Process.{
  pick_smaller, start_frame, copy_symbols, finish_frame, process_task,
}
use gr_ccsds.FrameSearch.Copied.{
  Answers, Copied, pick_smaller-le, copy_start-pos, copy_start-behind,
}

module _ {R : Radio} (c : Config) (stream : List R.dsp.Sample) where
  open R use {Lut, dsp}

  start_frame-Copied :
      (tags : Header R) (b : SyncBuffer dsp) (t : FrameCopyTask R)
      → (Copied c stream) t
      → (Copied c stream) (start_frame c tags b t)
  start_frame-Copied tags b t h =
      if-intro (Copied c stream) _ _ t
        (λ _. record {
          whole = h.whole;
          slots = h.slots;
          within = h.within;
          behind_head = h.behind_head;
          place = h.place;
          turned = h.turned;
          headed = λ none some. refl;
          symbols = h.symbols;
        })
        (λ _. h)

  finish_frame-Copied :
      (t : FrameCopyTask R) → (Copied c stream) t → (Copied c stream) (finish_frame c t)
  finish_frame-Copied t h =
      if-intro (Copied c stream) (data_complete t) _ t
        (λ _. record {
          whole = h.whole;
          slots = h.slots;
          within = h.within;
          behind_head = h.behind_head;
          place = h.place;
          turned = h.turned;
          headed = h.headed;
          symbols = h.symbols;
        })
        (λ _. h)

  copy_symbols-Copied :
      (b : SyncBuffer dsp) (k : ℕ) (t : FrameCopyTask R)
      → 1 ≤ c.asm_len
      → Answers stream b
      → (num_head_symbols c ≡ 0 → t.header_computed ≡ true)
      → offset_start b ≤ t.copy_from
      → k ≤ num_remaining t
      → k ≤ offset_last_symbol b + 1 - t.copy_from
      → (Copied c stream) t
      → (Copied c stream) (copy_symbols b k t)
  copy_symbols-Copied b k t marker answers headed starts fits avail h = record {
    whole = h.whole;
    slots = length-fill _ _ _ t.msg_buffer ∙ h.slots;
    within = omega (arith, h.whole, h.within);
    behind_head = h.behind_head;
    place = omega (arith, h.place);
    turned = h.turned;
    headed = λ none some. headed none;
    symbols = λ m lt. elim (index_cases m t.num_symbols_copied) [
      | inl before ↦
          let (read, decoded) = h.symbols m before in
          let (lut, same) = decoded in
          (read, (lut, get_or-fill_outside _ _ _ t.msg_buffer m [] (inl before) ∙ same))
      | inr (i, e) ↦
          let start = copy_start-pos c t.asm_pos.offset h.behind_head marker in
          let p = copy_start c t.asm_pos.offset + m in
          let lut = R.gen_soft_dec_lut (snr b t.copy_from) (k / 2) in
          let here : t.copy_from + (t.num_symbols_copied + i - t.num_symbols_copied) ≡ p =
            omega (arith, h.place) in
          let (read, answer) =
            answers p (omega arith) (omega (arith, h.place)) (omega (arith, h.place)) in
          let decode =
            λ (x : dsp.Sample) (r : R.Rotation). R.soft_decision_maker lut (R.rotate_symbol x r) in
          (
            read,
            (
              lut,
              ap (λ j. get_or (copy_symbols b k t).msg_buffer j []) e
                  ∙ get_or-fill _ _ k t.msg_buffer i [] (omega arith)
                      (omega (arith, h.slots, h.whole, h.within))
                  ∙ ap (λ j. decode (signal_at b j) t.amb_correction) here
                  ∙ ap (λ x. decode x t.amb_correction) answer
                  ∙ ap (decode (get_or stream p dsp.silence)) h.turned,
            ),
          )
    ];
  }

  start_frame-kept :
      (tags : Header R) (b : SyncBuffer dsp) (t : FrameCopyTask R)
      → ((start_frame c tags b t).copy_from ≡ t.copy_from)
        × (num_remaining (start_frame c tags b t) ≡ num_remaining t)
  start_frame-kept tags b t =
      if-intro
        (λ (u : FrameCopyTask R). (u.copy_from ≡ t.copy_from) × (num_remaining u ≡ num_remaining t))
        _ _ t (λ _. (refl, refl)) (λ _. (refl, refl))

  -- The samples that a frame waits for are at its first one or before it.
  first-starts :
      (b : SyncBuffer dsp) (t : FrameCopyTask R) (n : ℕ)
      → (leb
            (offset_start b)
            (if t.header_computed then t.copy_from else pick_smaller t.asm_pos.offset t.copy_from)
          && leb
              (if t.header_computed then t.copy_from else pick_smaller t.asm_pos.offset t.copy_from)
              n)
        ≡ true
      → (offset_start b ≤ t.copy_from)
        × (t.header_computed ≡ false → offset_start b ≤ t.asm_pos.offset)
  first-starts b t n inside = (ground arith, λ new. ground arith)

  start_frame-headed :
      (tags : Header R) (b : SyncBuffer dsp) (t : FrameCopyTask R)
      → (t.header_computed ≡ false → offset_start b ≤ t.asm_pos.offset)
      → t.asm_pos.offset + c.asm_len ≤ offset_last_symbol b
      → (start_frame c tags b t).header_computed ≡ true
  start_frame-headed tags b t starts read =
      if-intro (λ (u : FrameCopyTask R). u.header_computed ≡ true) _ _ t (λ _. refl)
        (λ late. elim (Bool-cases t.header_computed) [
          | inl old ↦ old
          | inr new ↦ absurd (ground (arith, late, starts new, read))
        ])

  -- The ways through the loop over the tasks.
  pub process_task-intro :
      (P : FrameCopyTask R → Type 0) (tags : Header R) (b : SyncBuffer dsp) (t : FrameCopyTask R)
      → P t
      → P (start_frame c tags b t)
      → (offset_start b ≤ t.copy_from
          → (t.header_computed ≡ false → offset_start b ≤ t.asm_pos.offset)
          → 0 < pick_smaller (num_remaining t) (offset_last_symbol b + 1 - t.copy_from)
          → P (
              finish_frame c (
                copy_symbols b
                  (pick_smaller (num_remaining t) (offset_last_symbol b + 1 - t.copy_from))
                  (start_frame c tags b t))))
      → P (finish_frame c t)
      → P (process_task c tags b t)
  unfolding process_task
  process_task-intro P tags b t complete started copied outside =
      let begun = start_frame c tags b t in
      let k = pick_smaller (num_remaining t) (offset_last_symbol b + 1 - t.copy_from) in
      let first =
        if t.header_computed then t.copy_from else pick_smaller t.asm_pos.offset t.copy_from in
      let finished = finish_frame c (copy_symbols b k begun) in
      if-intro P (data_complete t) t _ (λ _. complete)
        (λ _.
          if-intro P (leb (offset_start b) first && leb first (offset_last_symbol b))
            (if k == 0 then begun else finished) (finish_frame c t)
            (λ inside.
              if-intro P (k == 0) begun finished (λ _. started)
                (λ some.
                  let (starts, new) = first-starts b t (offset_last_symbol b) inside in
                  copied starts new (ground (arith, some))))
            (λ _. outside))

  pub process_task-Copied :
      (tags : Header R) (b : SyncBuffer dsp) (t : FrameCopyTask R)
      → 1 ≤ c.asm_len
      → Answers stream b
      → (Copied c stream) t
      → (Copied c stream) (process_task c tags b t)
  process_task-Copied tags b t marker answers h =
      let avail = offset_last_symbol b + 1 - t.copy_from in
      let k = pick_smaller (num_remaining t) avail in
      let begun = start_frame-Copied tags b t h in
      let (here, left) = start_frame-kept tags b t in
      process_task-intro (Copied c stream) tags b t h begun
        (λ starts new some. finish_frame-Copied (copy_symbols b k (start_frame c tags b t)) (
          copy_symbols-Copied b k (start_frame c tags b t) marker answers
            (λ none. start_frame-headed tags b t new (
              omega (
                arith,
                some,
                pick_smaller-le (num_remaining t) avail,
                copy_start-behind c t.asm_pos.offset none,
                h.place,
              )))
            (omega (arith, here, starts))
            (omega (arith, left, pick_smaller-le (num_remaining t) avail))
            (omega (arith, here, pick_smaller-le (num_remaining t) avail)) begun))
        (finish_frame-Copied t h)
