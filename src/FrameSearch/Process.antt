-- ===== src/FrameSearch/Process.antt =====
-- lib/frame_sync_impl.cc: how the queued frames are filled from the buffer, and which of them are sent.
use gr_ccsds.Prelude.{
  ℕ, zero, suc, ◌+◌, ◌-◌, ◌*◌, ◌/◌, Bool, true, not, ◌&&◌, List, [], ◌∷◌, ltb, leb, ◌==◌,
  if◌then◌else◌,
}
use gr_ccsds.Prelude.Int.{ℤ, pos, negsuc}
use gr_ccsds.SyncBuffer.Defs.{
  Dsp, SyncBuffer, offset_start, offset_last_symbol, fill, signal_at, correlation_at, energy_at,
}
use gr_ccsds.SyncBuffer.Queries.{snr}
use gr_ccsds.FrameSearch.Tasks.{
  Radio, Interpolation, AsmPosition, Config, number, signed, amount, truth, Header, FrameCopyTask,
  data_complete, num_remaining,
}

-- utils::pick_smaller
abbrev pub pick_smaller : ℕ → ℕ → ℕ
pick_smaller a b = if ltb a b then a else b

-- -head_num_bits()
abbrev pub payload_offset : Config → ℤ
payload_offset c = elim c.head_num_symbols [
  | pos zero ↦ pos 0
  | pos (suc h) ↦ negsuc (suc h * c.bits_per_symbol - 1)
  | negsuc k ↦ pos (suc k * c.bits_per_symbol)
]

-- energy(offset), energy(offset + 1), and so on
unfoldable pub energies : {V : Dsp} → SyncBuffer V → ℕ → ℕ → List V.Energy
energies b offset zero = []
energies b offset (suc k) = energy_at b offset ∷ energies b (offset + 1) k

-- Only frames that no marker of the window can queue again are sent.
abbrev pub indx_threshold : {V : Dsp} → Config → SyncBuffer V → ℕ
indx_threshold c b = b.offset_counter - c.frames_before * c.block_len

module _ (R : Radio) where
  open R use {Float, dsp}

  pub record AsmHeader : Type 0 where
    pub offset : ℕ
    pub ambiguity : ℕ
    pub score : Float
    pub correlation : Float
    pub primary : Bool
    pub snr : Interpolation dsp
    pub sequence : ℕ

module _ {R : Radio} where
  open R use {Float, Lut, dsp}

  abbrev pub compute_single_score : Config → SyncBuffer dsp → AsmPosition → Bool → AsmHeader R
  compute_single_score c b info primary =
      let rotation = R.amb_correction info.ambiguity in
      let correlation = correlation_at b info.offset in
      record {
        offset = info.offset;
        ambiguity = info.ambiguity;
        score = R.score rotation correlation (energies b info.offset c.asm_len);
        correlation = R.correlation_pct rotation correlation c.asm_len;
        primary = primary;
        snr = snr b info.offset;
        sequence = info.sequence;
      }

  abbrev pub generate_header : Config → AsmHeader R → Header R → Header R
  generate_header c h old =
      let frame_offset = h.offset * c.bits_per_symbol in
      let frame_number = frame_offset / (c.block_len * c.bits_per_symbol) in
      let numbered =
        R.dict_add (R.dict_add old "asm_offset" (number frame_offset)) "asm_number"
          (number frame_number) in
      let scored =
        R.dict_add
          (R.dict_add (R.dict_add numbered "asm_ambiguity" (number h.ambiguity)) "asm_score"
            (amount h.score))
          "asm_correlation" (amount h.correlation) in
      let primary = R.dict_add scored "asm_primary" (truth h.primary) in
      let estimated = R.dict_add primary "asm_snr_db" (amount (R.snr_db h.snr)) in
      let signal =
        R.dict_add (R.dict_add estimated "asm_Es_start" (amount (R.es_start h.snr))) "asm_Es_slope"
          (amount (R.es_slope h.snr)) in
      let noise =
        R.dict_add (R.dict_add signal "asm_N0_start" (amount (R.n0_start h.snr))) "asm_N0_slope"
          (amount (R.n0_slope h.snr)) in
      if h.sequence == 0 then noise else R.dict_add noise "asm_sequence" (number h.sequence)

  -- The first `if` within the range of the buffer.
  abbrev pub start_frame : Config → Header R → SyncBuffer dsp → FrameCopyTask R → FrameCopyTask R
  start_frame c extra_tags b t =
      let info = t.asm_pos in
      let asm_available =
        leb (offset_start b) info.offset && leb (info.offset + c.asm_len) (offset_last_symbol b) in
      let meta = compute_single_score c b info t.primary in
      if not t.header_computed && asm_available
      then record t {
        header = R.dict_update (generate_header c meta t.header) extra_tags;
        header_computed = true;
      }
      else t

  -- The rest of that `if`: `k` symbols.
  abbrev pub copy_symbols : SyncBuffer dsp → ℕ → FrameCopyTask R → FrameCopyTask R
  copy_symbols b k t =
      let lut = R.gen_soft_dec_lut (snr b t.copy_from) (k / 2) in
      record t {
        msg_buffer =
            fill
              (λ slot. R.soft_decision_maker lut (
                R.rotate_symbol (signal_at b (t.copy_from + (slot - t.num_symbols_copied)))
                  t.amb_correction))
              t.num_symbols_copied k t.msg_buffer;
        copy_from = t.copy_from + k;
        num_symbols_copied = t.num_symbols_copied + k;
      }

  abbrev pub finish_frame : Config → FrameCopyTask R → FrameCopyTask R
  finish_frame c t =
      let complete = R.dict_add t.header "frame_complete" (truth true) in
      let placed = R.dict_add complete "frame_payload_offset" (signed (payload_offset c)) in
      if data_complete t
      then record t { header = R.dict_add placed "frame_number" (R.dict_ref placed "asm_number") }
      else t

  -- The body of the first loop of processFrameQueue()
  unfoldable pub process_task :
      Config → Header R → SyncBuffer dsp → FrameCopyTask R → FrameCopyTask R
  process_task c extra_tags b t =
      let avail_until = offset_last_symbol b in
      let first =
        if t.header_computed then t.copy_from else pick_smaller t.asm_pos.offset t.copy_from in
      let started = start_frame c extra_tags b t in
      let to_copy = pick_smaller (num_remaining t) (avail_until + 1 - t.copy_from) in
      if data_complete t
      then t
      else if leb (offset_start b) first && leb first avail_until
      then (if to_copy == 0 then started else finish_frame c (copy_symbols b to_copy started))
      else finish_frame c t

  abbrev pub is_sendable : Config → SyncBuffer dsp → FrameCopyTask R → Bool
  is_sendable c b t = data_complete t && ltb t.asm_pos.offset (indx_threshold c b)

  -- processFrameQueue(): the tasks that stay, and those whose messages are published.
  unfoldable pub process_frame_queue :
      Config
      → Header R
      → SyncBuffer dsp
      → List (FrameCopyTask R)
      → List (FrameCopyTask R) × List (FrameCopyTask R)
  process_frame_queue c extra_tags b [] = ([], [])
  process_frame_queue c extra_tags b (t ∷ ts) =
      let done = process_task c extra_tags b t in
      let (stay, send) = process_frame_queue c extra_tags b ts in
      if is_sendable c b done then (stay, done ∷ send) else (done ∷ stay, send)
