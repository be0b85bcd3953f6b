-- ===== src/SyncBuffer/Holds.antt =====
-- The buffer as a window of the signal: what it holds after any reads and shifts.
use gr_ccsds.Prelude.{
  ℕ, ◌+◌, ◌-◌, ◌≤◌, ◌<◌, ◌≡◌, refl, sym, ap, ◌∙◌, ◌⊎◌, inl, inr, Bool-cases, List, ◌++◌, length,
  length-append, length-take, length-replicate, get_or, take, replicate, ltb, arith,
}
use gr_ccsds.Prelude.Access.{get_or-replicate, get_or-append_left, get_or-append_right}
use gr_ccsds.SyncBuffer.Defs.{
  Dsp, Lengths, overlap_len, history_len, buffer_len, SyncBuffer, make, write, samples_at, num_copy,
  read_signal,
}
use gr_ccsds.SyncBuffer.Writes.{
  length-write, get_or-write_before, get_or-write, length-fill, get_or-fill_outside, get_or-fill,
  samples_at-ext,
}

-- The index is below the bound, or so many behind it.
pub index_cases : (i s : ℕ) → (i < s) ⊎ ((k : ℕ) × (i ≡ s + k))
index_cases i s = elim (Bool-cases (ltb i s)) [
  | inl e ↦ inl (ground arith)
  | inr e ↦ inr (i - s, ground arith)
]

module _ {V : Dsp} where
  open V use {Sample, silence, no_correlation, dot_product, Snr}

  -- The arrays hold what the signal `padded`, which begins with the silence of the history, has from the
  -- offset on; the correlations are those of whole markers behind the silence, up to the last one.
  pub record Follows (l : Lengths) (b : SyncBuffer V) (padded : List Sample) : Type 0 where
    pub same_lengths : b.lengths ≡ l
    pub counted : length padded ≡ b.offset_counter + b.num_items
    pub whole_signal : length b.signal ≡ buffer_len b.lengths
    pub whole_correlation : length b.correlation ≡ history_len b.lengths + b.lengths.block_len
    pub within : b.num_items ≤ buffer_len b.lengths
    pub marker : 1 ≤ b.lengths.asm_len
    pub signals :
        (i : ℕ)
        → i < b.num_items
        → get_or b.signal i silence ≡ get_or padded (b.offset_counter + i) silence
    pub correlations :
        (i : ℕ)
        → history_len b.lengths ≤ b.offset_counter + i
        → i + b.lengths.asm_len < b.num_items
        → get_or b.correlation i no_correlation
          ≡ dot_product (samples_at silence (b.offset_counter + i) b.lengths.asm_len padded)

  pub make-Follows :
      (l : Lengths) → 1 ≤ l.asm_len → Follows l (make V l) (replicate (history_len l) silence)
  make-Follows l h = record {
    same_lengths = refl;
    counted = omega (arith, length-replicate (history_len l) silence);
    whole_signal = length-replicate (buffer_len l) silence;
    whole_correlation =
        length-replicate (buffer_len l - overlap_len l) no_correlation ∙ omega arith;
    within = omega arith;
    marker = h;
    signals = λ i lt.
        get_or-replicate (buffer_len l) i silence
        ∙ sym (get_or-replicate (history_len l) (0 + i) silence);
    correlations = λ i behind lt. absurd (omega arith);
  }

  pub num_copy-le :
      (b : SyncBuffer V) (input : List Sample)
      → (num_copy b input ≤ length input) × (num_copy b input ≤ buffer_len b.lengths - b.num_items)
  num_copy-le b input = ground arith

  length-taken :
      (b : SyncBuffer V) (input : List Sample)
      → length (take (num_copy b input) input) ≡ num_copy b input
  length-taken b input = omega (arith, length-take (num_copy b input) input, num_copy-le b input)

  module _ (l : Lengths) (b : SyncBuffer V) (padded input : List Sample)
      (h : Follows l b padded) where
    abbrev taken : List Sample
    taken = take (num_copy b input) input

    abbrev signal_after : List Sample
    signal_after = write b.num_items taken b.signal

    signals_after :
        (i : ℕ)
        → i < b.num_items + num_copy b input
        → get_or signal_after i silence ≡ get_or (padded ++ taken) (b.offset_counter + i) silence
    signals_after i lt = elim (index_cases i b.num_items) [
      | inl before ↦
          get_or-write_before b.num_items taken b.signal i silence before
          ∙ h.signals i before
          ∙ sym (
              get_or-append_left padded taken (b.offset_counter + i) silence
                (omega (arith, h.counted)))
      | inr (k, e) ↦
          let here : b.offset_counter + i ≡ length padded + k = omega (arith, h.counted) in
          ap (λ j. get_or signal_after j silence) e
          ∙ get_or-write b.num_items taken b.signal k silence (omega (arith, length-taken b input))
              (omega (arith, length-taken b input, num_copy-le b input, h.whole_signal, h.within))
          ∙ sym (get_or-append_right padded taken k silence)
          ∙ ap (λ j. get_or (padded ++ taken) j silence) (sym here)
    ]

    -- The marker at an index was whole before.
    window_before :
        (i : ℕ)
        → i + b.lengths.asm_len ≤ b.num_items
        → samples_at silence (b.offset_counter + i) b.lengths.asm_len padded
          ≡ samples_at silence (b.offset_counter + i) b.lengths.asm_len (padded ++ taken)
    window_before i fits =
        samples_at-ext silence (b.offset_counter + i) (b.offset_counter + i) b.lengths.asm_len
          padded (padded ++ taken)
          (λ m lt. sym (
            get_or-append_left padded taken (b.offset_counter + i + m) silence
              (omega (arith, h.counted))))

    window_after :
        (i : ℕ)
        → i + b.lengths.asm_len ≤ b.num_items + num_copy b input
        → samples_at silence i b.lengths.asm_len signal_after
          ≡ samples_at silence (b.offset_counter + i) b.lengths.asm_len (padded ++ taken)
    window_after i fits =
        samples_at-ext silence i (b.offset_counter + i) b.lengths.asm_len signal_after
          (padded ++ taken)
          (λ m lt.
            let place : b.offset_counter + (i + m) ≡ b.offset_counter + i + m = omega arith in
            signals_after (i + m) (omega arith)
            ∙ ap (λ j. get_or (padded ++ taken) j silence) place)

    pub read_signal-Follows : (snr : Snr) → Follows l (read_signal b input snr).0 (padded ++ taken)
    unfolding read_signal
    read_signal-Follows snr = record {
      same_lengths = h.same_lengths;
      counted = omega (arith, length-append padded taken, length-taken b input, h.counted);
      whole_signal = length-write b.num_items taken b.signal ∙ h.whole_signal;
      whole_correlation = length-fill _ _ _ b.correlation ∙ h.whole_correlation;
      within = omega (arith, h.within, num_copy-le b input);
      marker = h.marker;
      signals = signals_after;
      correlations = λ i behind fits. elim (index_cases i (b.num_items - b.lengths.asm_len)) [
        | inl before ↦
            get_or-fill_outside _ (b.num_items - b.lengths.asm_len) _ b.correlation i no_correlation
              (inl before)
            ∙ h.correlations i behind (omega arith)
            ∙ ap dot_product (window_before i (omega arith))
        | inr (k, e) ↦
            ap (λ j. get_or (read_signal b input snr).0.correlation j no_correlation) e
            ∙ get_or-fill _ (b.num_items - b.lengths.asm_len) _ b.correlation k no_correlation
                (omega arith)
                (omega (arith, h.whole_correlation, h.within, num_copy-le b input, h.marker))
            ∙ ap (λ j. dot_product (samples_at silence j b.lengths.asm_len signal_after)) (sym e)
            ∙ ap dot_product (window_after i (omega arith))
      ];
    }
