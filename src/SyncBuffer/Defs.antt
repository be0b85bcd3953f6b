-- ===== src/SyncBuffer/Defs.antt =====
-- lib/frame_sync_buffer.cc: the window of the signal in which the sync marker is sought, with the
-- correlation and the energy of its samples. The arithmetic on complex numbers and floats, VOLK's among
-- it, is a parameter, and so are the estimates of the signal-to-noise ratio. The arrays are lists of the
-- arrays' lengths; an array that C++ makes starts with zeros.
use gr_ccsds.Prelude.{
  ℕ, zero, suc, ◌+◌, ◌-◌, ◌*◌, Bool, List, [], ◌∷◌, ◌++◌, Result, ok, err, runtime_error, ◌>>=◌,
  length, get_or, set, take, drop, replicate, ltb, ◌==◌, if◌then◌else◌,
}

-- What the buffer computes with.
pub record Dsp : Type 1 where
  pub Sample : Type 0
  pub Correlation : Type 0
  pub Energy : Type 0
  pub Snr : Type 0
  pub silence : Sample
  pub no_correlation : Correlation
  pub no_energy : Energy
  pub lowest_energy : Energy
  pub invalid_snr : Snr
  -- the dot product of so many samples with the conjugate of the marker
  pub dot_product : List Sample → Correlation
  -- the energy of the i-th of n samples that are read, between two estimates, at an offset
  pub sample_energy : Snr → Snr → ℕ → ℕ → ℕ → Sample → Energy

-- The lengths that the constructor is given: of a block, of the marker, of the history in blocks, and of
-- the head.
pub record Lengths : Type 0 where
  pub block_len : ℕ
  pub asm_len : ℕ
  pub history_frames : ℕ
  pub head_len : ℕ

abbrev pub overlap_len : Lengths → ℕ
overlap_len l = l.asm_len - 1

abbrev pub history_len : Lengths → ℕ
history_len l = l.history_frames * l.block_len + l.head_len

abbrev pub buffer_len : Lengths → ℕ
buffer_len l = history_len l + l.block_len + overlap_len l

module _ (V : Dsp) where
  open V use {
    Sample, Correlation, Energy, Snr, silence, no_correlation, no_energy, lowest_energy,
    invalid_snr, dot_product, sample_energy,
  }

  pub record SyncBuffer : Type 0 where
    pub lengths : Lengths
    pub snr_tags : List Snr
    pub signal : List Sample
    pub correlation : List Correlation
    pub energy : List Energy
    pub num_items : ℕ
    pub offset_counter : ℕ

  abbrev pub make : Lengths → SyncBuffer
  make l = record {
    lengths = l;
    snr_tags = replicate (1 + l.history_frames + 1) invalid_snr;
    signal = replicate (buffer_len l) silence;
    correlation = replicate (buffer_len l - overlap_len l) no_correlation;
    energy =
        replicate (history_len l) lowest_energy
        ++ replicate (buffer_len l - history_len l) no_energy;
    num_items = history_len l;
    offset_counter = 0;
  }

abbrev pub full : {V : Dsp} → SyncBuffer V → Bool
full b = b.num_items == buffer_len b.lengths

abbrev pub offset_start : {V : Dsp} → SyncBuffer V → ℕ
offset_start b = b.offset_counter - history_len b.lengths

abbrev pub offset_last_symbol : {V : Dsp} → SyncBuffer V → ℕ
offset_last_symbol b = b.offset_counter + (b.num_items - (history_len b.lengths + 1))

abbrev pub local_offset : {V : Dsp} → SyncBuffer V → ℕ → ℕ
local_offset b abs_offset = abs_offset + history_len b.lengths - b.offset_counter

-- std::rotate to the left
abbrev pub rotate {ℓ} : {A : Type ℓ} → ℕ → List A → List A
rotate k xs = drop k xs ++ take k xs

-- std::memcpy to index `i` on
unfoldable pub write {ℓ} : {A : Type ℓ} → ℕ → List A → List A → List A
write i [] xs = xs
write i (v ∷ vs) xs = write (i + 1) vs (set xs i v)

-- A loop that sets the items at `k` indices from `i` on.
unfoldable pub fill {ℓ} : {A : Type ℓ} → (ℕ → A) → ℕ → ℕ → List A → List A
fill value i zero xs = xs
fill value i (suc k) xs = fill value (i + 1) k (set xs i (value i))

abbrev pub set_snr_current_end {ℓ} : {A : Type ℓ} → A → List A → List A
set_snr_current_end snr tags = set tags (length tags - 1) snr

-- The `k` items from index `i` on, and `d` beyond the end.
unfoldable pub samples_at {ℓ} : {A : Type ℓ} → A → ℕ → ℕ → List A → List A
samples_at d i zero xs = []
samples_at d i (suc k) xs = get_or xs i d ∷ samples_at d (i + 1) k xs

module _ {V : Dsp} where
  open V use {
    Sample, Correlation, Energy, Snr, silence, no_correlation, no_energy, lowest_energy,
    invalid_snr, dot_product, sample_energy,
  }

  unfoldable pub advance : SyncBuffer V → Result (SyncBuffer V)
  advance b =
      let k = b.lengths.block_len in
      if full b
      then ok (record b {
        signal = rotate k b.signal;
        correlation = rotate k b.correlation;
        energy = rotate k b.energy;
        snr_tags = set_snr_current_end invalid_snr (rotate 1 b.snr_tags);
        num_items = b.num_items - k;
        offset_counter = b.offset_counter + k;
      })
      else err runtime_error

  abbrev pub num_copy : SyncBuffer V → List Sample → ℕ
  num_copy b input =
      let num_until_full = buffer_len b.lengths - b.num_items in
      if ltb (length input) num_until_full then length input else num_until_full

  -- read_signal(in, num_available, snr_end), with the available samples
  unfoldable pub read_signal : SyncBuffer V → List Sample → Snr → SyncBuffer V × ℕ
  read_signal b input snr_end =
      let n = num_copy b input in
      let start = b.num_items in
      let stop = b.num_items + n in
      let asm_len = b.lengths.asm_len in
      let read = take n input in
      let signal = write start read b.signal in
      let tags = set_snr_current_end snr_end b.snr_tags in
      let snr_start = get_or tags (length tags - 2) invalid_snr in
      let snr_stop = get_or tags (length tags - 1) invalid_snr in
      (
        record b {
          signal = signal;
          correlation =
              fill (λ i. dot_product (samples_at silence i asm_len signal)) (start - asm_len)
                (stop - asm_len - (start - asm_len)) b.correlation;
          energy =
              fill
                (λ i.
                  sample_energy snr_start snr_stop b.offset_counter n (i - start)
                    (get_or signal i silence))
                start n b.energy;
          snr_tags = tags;
          num_items = stop;
        },
        n,
      )

  -- signal(abs_pos), correlation(abs_pos) and energy(abs_pos), without the assertions
  abbrev pub signal_at : SyncBuffer V → ℕ → Sample
  signal_at b abs_pos = get_or b.signal (local_offset b abs_pos) silence

  abbrev pub correlation_at : SyncBuffer V → ℕ → Correlation
  correlation_at b abs_pos = get_or b.correlation (local_offset b abs_pos) no_correlation

  abbrev pub energy_at : SyncBuffer V → ℕ → Energy
  energy_at b abs_pos = get_or b.energy (local_offset b abs_pos) no_energy

  -- correlation_window(local_pos)
  abbrev pub correlation_window : SyncBuffer V → ℕ → Correlation
  correlation_window b local_pos =
      get_or b.correlation (history_len b.lengths + local_pos) no_correlation

-- What a client does with the buffer.
pub data Operation (V : Dsp) : Type 0 where
  reads : List V.Sample → V.Snr → Operation V
  advances : Operation V

module _ {V : Dsp} where
  open V use {Sample}

  -- One operation: the buffer after it, and the samples that it took.
  unfoldable pub step : SyncBuffer V → Operation V → Result (SyncBuffer V × List Sample)
  step b (reads input snr) = let (b', n) = read_signal b input snr in ok (b', take n input)
  step b advances = advance b >>= λ b'. ok (b', [])

  -- The operations in turn, with the samples that were taken in all. An exception ends them.
  unfoldable pub run : SyncBuffer V → List (Operation V) → Result (SyncBuffer V × List Sample)
  run b [] = ok (b, [])
  run b (o ∷ os) = do (b', taken) ← step b o; (b'', rest) ← run b' os; ok (b'', taken ++ rest)
