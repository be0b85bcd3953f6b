-- ===== src/SyncBuffer/Queries.antt =====
-- What lib/frame_sync_buffer.cc answers about the buffer besides its samples and correlations.
use gr_ccsds.Prelude.{
  ℕ, ◌+◌, ◌-◌, ◌*◌, ◌/◌, Bool, List, Result, ok, err, runtime_error, length, get_or, ltb, leb,
  if◌then◌else◌,
}
use gr_ccsds.SyncBuffer.Defs.{
  Dsp, overlap_len, history_len, buffer_len, SyncBuffer, local_offset, samples_at,
}

-- How much is in the buffer.
abbrev pub buffer_current_empty : {V : Dsp} → SyncBuffer V → Bool
buffer_current_empty b = leb b.num_items (history_len b.lengths)

abbrev pub num_symbols_in_window : {V : Dsp} → SyncBuffer V → ℕ
num_symbols_in_window b = b.num_items - history_len b.lengths

abbrev pub num_symbols_missing : {V : Dsp} → SyncBuffer V → ℕ
num_symbols_missing b = buffer_len b.lengths - b.num_items

abbrev pub offset_end : {V : Dsp} → SyncBuffer V → ℕ
offset_end b = b.offset_counter + b.lengths.block_len + overlap_len b.lengths - 1

abbrev pub absolute_offset : {V : Dsp} → SyncBuffer V → ℕ → ℕ
absolute_offset b local_index = b.offset_counter + local_index - history_len b.lengths

module _ {V : Dsp} where
  open V use {Sample, Energy, Snr, silence, no_energy, invalid_snr}

  -- signal_window(local_pos), energy_window(local_pos), and energy_window_ptr(local_pos, num) with the
  -- items that may be read behind the pointer
  abbrev pub signal_window : SyncBuffer V → ℕ → Sample
  signal_window b local_pos = get_or b.signal (history_len b.lengths + local_pos) silence

  abbrev pub energy_window : SyncBuffer V → ℕ → Energy
  energy_window b local_pos = get_or b.energy (history_len b.lengths + local_pos) no_energy

  unfoldable pub energy_window_ptr : SyncBuffer V → ℕ → ℕ → Result (List Energy)
  energy_window_ptr b local_pos num =
      if ltb (b.lengths.block_len + overlap_len b.lengths) (local_pos + num)
      then err runtime_error
      else ok (samples_at no_energy (history_len b.lengths + local_pos) num b.energy)

  -- snr(abs_pos): the two estimates that are interpolated, the offset of the first one, and their distance
  unfoldable pub snr : SyncBuffer V → ℕ → Snr × Snr × ℕ × ℕ
  snr b abs_pos =
      let local_block = (local_offset b abs_pos - b.lengths.head_len) / b.lengths.block_len in
      let start =
        if ltb (local_block + 1) (length b.snr_tags) then local_block else length b.snr_tags - 2 in
      (
        get_or b.snr_tags start invalid_snr,
        get_or b.snr_tags (start + 1) invalid_snr,
        absolute_offset b (b.lengths.head_len + start * b.lengths.block_len),
        b.lengths.block_len,
      )

  abbrev pub snr_window : SyncBuffer V → Snr × Snr × ℕ × ℕ
  snr_window b = snr b (b.offset_counter + history_len b.lengths)
