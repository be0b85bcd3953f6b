-- ===== src/SyncBuffer/Stale.antt =====
-- The correlation of the last position of a block.
use gr_ccsds.Prelude.{◌+◌, ◌-◌, ◌≤◌, ◌≡◌, inr, List, arith}
use gr_ccsds.SyncBuffer.Defs.{
  Dsp, history_len, buffer_len, SyncBuffer, correlation_window, read_signal,
}
use gr_ccsds.SyncBuffer.Writes.{get_or-fill_outside}
use gr_ccsds.SyncBuffer.Holds.{num_copy-le}

module _ {V : Dsp} where
  open V use {Sample, Snr, no_correlation}

  -- No call of read_signal computes the correlation of the last position of the current block: whatever is
  -- read, also where it makes the buffer full, that correlation stays what it was. The buffer holds no
  -- more than it has room for, and the marker and a block have one symbol at least.
  pub read_signal-last_correlation :
      (b : SyncBuffer V) (input : List Sample) (snr : Snr)
      → b.num_items ≤ buffer_len b.lengths
      → 1 ≤ b.lengths.asm_len
      → 1 ≤ b.lengths.block_len
      → correlation_window (read_signal b input snr).0 (b.lengths.block_len - 1)
        ≡ correlation_window b (b.lengths.block_len - 1)
  unfolding read_signal
  read_signal-last_correlation b input snr within marker block =
      get_or-fill_outside _ (b.num_items - b.lengths.asm_len) _ b.correlation
        (history_len b.lengths + (b.lengths.block_len - 1)) no_correlation
        (inr (omega (arith, num_copy-le b input)))
