-- ===== src/FrameSearch/Work.antt =====
-- lib/frame_sync_impl.cc: the block that is given the signal, from its constructor to its end.
use gr_ccsds.Prelude.{
  map, ℕ, zero, suc, ◌+◌, ◌==◌, false, List, [], ◌∷◌, ◌++◌, Result, ok, ◌>>=◌, length, take, drop,
  replicate, ltb, if◌then◌else◌,
}
use gr_ccsds.SyncBuffer.Defs.{Lengths, SyncBuffer, make, full, advance, read_signal, overlap_len}
use gr_ccsds.SyncBuffer.Queries.{buffer_current_empty, num_symbols_in_window, num_symbols_missing}
use gr_ccsds.FrameSearch.Tasks.{
  Radio, AsmPosition, Config, truth, Header, FrameCopyTask, Tags, num_remaining, num_head_symbols,
}
use gr_ccsds.FrameSearch.Process.{pick_smaller, process_frame_queue}
use gr_ccsds.FrameSearch.Search.{queue_secondary, process_buffer}

abbrev pub buffer_lengths : Config → Lengths
buffer_lengths c = record {
  block_len = c.block_len;
  asm_len = c.asm_len;
  history_frames = c.frames_before;
  head_len = num_head_symbols c;
}

module _ (R : Radio) where
  open R use {Float, Estimator, dsp}

  -- The block, with the number of items that the scheduler knows it to have read. What is published
  -- leaves the queue at once, so that the queue holds what is not sent yet.
  pub record FrameSync : Type 0 where
    pub buffer : SyncBuffer dsp
    pub frame_queue : List (FrameCopyTask R)
    pub sequence_number : ℕ
    pub snr_est : Estimator
    pub extra_tags : Header R
    pub nitems_read : ℕ

  -- A frame of its header and its buffer, or PMT_EOF.
  pub data Message : Type 0 where
    frame : Header R → List (List Float) → Message
    eof : Message

-- The loop over the tags of the first item.
abbrev pub add_tags : (R : Radio) → Header R → Tags R → Header R
add_tags R dict [] = dict
add_tags R dict ((key, value) ∷ tags) = add_tags R (R.dict_add dict key value) tags

module _ {R : Radio} where
  open R use {dsp, Estimator}

  unfoldable pub make_frame_sync : Config → List AsmPosition → Result (FrameSync R)
  make_frame_sync c additional_asm = do
    queue ← queue_secondary c additional_asm []
    ok (record {
      buffer = make dsp (buffer_lengths c);
      frame_queue = queue;
      sequence_number = 0;
      snr_est = R.first_estimator;
      extra_tags = R.make_dict;
      nitems_read = 0;
    })

  -- processFrameQueue() on the block, with the tasks that are published
  abbrev pub process_queue : Config → FrameSync R → FrameSync R × List (FrameCopyTask R)
  process_queue c s =
      let (stay, send) = process_frame_queue c s.extra_tags s.buffer s.frame_queue in
      (record s { frame_queue = stay }, send)

  -- What the loop of work() reads at once.
  abbrev pub read : FrameSync R → List dsp.Sample → FrameSync R
  read s samples =
      let snr_est = R.update s.snr_est samples in
      record s { buffer = (read_signal s.buffer samples (R.get_snr snr_est)).0; snr_est = snr_est }

  -- What it does on a full buffer.
  unfoldable pub on_full : Config → FrameSync R → Result (FrameSync R × List (FrameCopyTask R))
  on_full c s = do
    (queue, sequence_number) ← process_buffer c s.buffer c.block_len s.frame_queue s.sequence_number
    let (s, send) =
        process_queue c (record s { frame_queue = queue; sequence_number = sequence_number })
    buffer ← advance s.buffer
    ok (record s { buffer = buffer }, send)

  -- The body of the loop of work(), with the samples that it copies.
  unfoldable pub work_round :
      Config → FrameSync R → List dsp.Sample → Result (FrameSync R × List (FrameCopyTask R))
  work_round c s samples =
      if full (read s samples).buffer then on_full c (read s samples) else ok (read s samples, [])

  -- The loop of work(), for at most so many rounds: the block, what it published, and the input that
  -- it has not processed.
  unfoldable pub work_loop :
      ℕ
      → Config
      → FrameSync R
      → List dsp.Sample
      → Result (FrameSync R × List (FrameCopyTask R) × List dsp.Sample)
  work_loop fuel c s [] = ok (s, [], [])
  work_loop zero c s (x ∷ xs) = ok (s, [], x ∷ xs)
  work_loop (suc fuel) c s (x ∷ xs) = do
    let num_copy = pick_smaller (length (x ∷ xs)) (num_symbols_missing s.buffer)
    (s, send) ← work_round c s (take num_copy (x ∷ xs))
    (s, sent, left) ← work_loop fuel c s (drop num_copy (x ∷ xs))
    ok (s, send ++ sent, left)

  -- work() with `tags` on its first item: each round processes one item at least.
  unfoldable pub work :
      Config
      → FrameSync R
      → Tags R
      → List dsp.Sample
      → Result (FrameSync R × List (FrameCopyTask R))
  work c s tags input = do
    let s = record s {
      extra_tags = if s.nitems_read == 0 then add_tags R R.make_dict tags else s.extra_tags;
    }
    (s, sent, left) ← work_loop (length input) c s input
    let (s, send) = process_queue c s
    ok (record s { nitems_read = s.nitems_read + length input }, sent ++ send)

  abbrev pub generate_pmt_to_send : FrameCopyTask R → Message R
  generate_pmt_to_send t = frame t.header t.msg_buffer

  -- The loop of stop(): what it publishes for the tasks that are left.
  unfoldable pub flush : List (FrameCopyTask R) → List (FrameCopyTask R)
  flush [] = []
  flush (t ∷ ts) =
      let rest = flush ts in
      let cut = record t { header = R.dict_add t.header "frame_complete" (truth false) } in
      if t.num_symbols_copied == 0
      then rest
      else (if ltb 0 (num_remaining t) then cut else t) ∷ rest

  -- The first `if` of stop()
  unfoldable pub fill_up : Config → FrameSync R → Result (FrameSync R)
  fill_up c s =
      let last_valid_index = pick_smaller (num_symbols_in_window s.buffer) c.block_len in
      let zeros = replicate (overlap_len s.buffer.lengths) dsp.silence in
      let filled = (read_signal s.buffer zeros (R.get_snr s.snr_est)).0 in
      if buffer_current_empty s.buffer
      then ok s
      else (process_buffer c filled last_valid_index s.frame_queue s.sequence_number
          >>= λ (r : List (FrameCopyTask R) × ℕ).
              ok (record s { buffer = filled; frame_queue = r.0; sequence_number = r.1 }))

  -- stop(): the tasks whose frames it publishes in turn, before PMT_EOF
  unfoldable pub stop : Config → FrameSync R → Result (List (FrameCopyTask R))
  stop c s = do s ← fill_up c s; let (s, send) = process_queue c s; ok (send ++ flush s.frame_queue)

  -- The calls of work() in turn, each with the tags on its first item.
  unfoldable pub run_works :
      Config
      → FrameSync R
      → List (Tags R × List dsp.Sample)
      → Result (FrameSync R × List (FrameCopyTask R))
  run_works c s [] = ok (s, [])
  run_works c s ((tags, input) ∷ calls) = do
    (s, sent) ← work c s tags input
    (s, later) ← run_works c s calls
    ok (s, sent ++ later)

  -- What the port has published at the end.
  abbrev pub messages : List (FrameCopyTask R) → List (Message R)
  messages tasks = map generate_pmt_to_send tasks ++ eof ∷ []

  -- The block from its constructor to its end: the tasks whose frames it publishes in turn.
  unfoldable pub session :
      Config → List AsmPosition → List (Tags R × List dsp.Sample) → Result (List (FrameCopyTask R))
  session c additional_asm calls = do
    s ← make_frame_sync c additional_asm
    (s, sent) ← run_works c s calls
    last ← stop c s
    ok (sent ++ last)

-- The samples of the calls.
abbrev pub stream_of {ℓ κ} : {A : Type ℓ} {H : Type κ} → List (H × List A) → List A
stream_of [] = []
stream_of ((tags, input) ∷ calls) = input ++ stream_of calls
