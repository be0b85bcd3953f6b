-- ===== src/SyncBuffer/Window.antt =====
-- What the buffer answers for a position of the signal, after any reads and shifts.
use gr_ccsds.Prelude.{
  ℕ, ◌+◌, ◌-◌, ◌≤◌, ◌<◌, ◌≡◌, sym, ap, subst, ◌∙◌, Bool, Bool-cases, inl, inr, List, [], ◌∷◌, ◌++◌,
  append-nil, append_assoc, Result, ok, ok-injective, err, runtime_error, >>=-eq-ok, length,
  length-append, length-replicate, get_or, replicate, ==_iff, if◌then◌else◌, arith,
}
use gr_ccsds.Prelude.Access.{get_or-append_right}
use gr_ccsds.SyncBuffer.Defs.{
  Dsp, Lengths, history_len, buffer_len, SyncBuffer, make, full, offset_start, local_offset,
  signal_at, correlation_at, rotate, set_snr_current_end, samples_at, advance, read_signal,
  Operation, reads, advances, step, run,
}
use gr_ccsds.SyncBuffer.Writes.{length-rotate, get_or-rotate, samples_at-ext}
use gr_ccsds.SyncBuffer.Holds.{Follows, make-Follows, read_signal-Follows}

-- The signal behind the silence of the history.
abbrev pub after_silence : (V : Dsp) → Lengths → List V.Sample → List V.Sample
after_silence V l taken = replicate (history_len l) V.silence ++ taken

module _ {V : Dsp} where
  open V use {Sample, silence, no_correlation, dot_product, invalid_snr}

  -- The buffer after a shift.
  abbrev pub shifted : SyncBuffer V → SyncBuffer V
  shifted b = record b {
    signal = rotate b.lengths.block_len b.signal;
    correlation = rotate b.lengths.block_len b.correlation;
    energy = rotate b.lengths.block_len b.energy;
    snr_tags = set_snr_current_end invalid_snr (rotate 1 b.snr_tags);
    num_items = b.num_items - b.lengths.block_len;
    offset_counter = b.offset_counter + b.lengths.block_len;
  }

  pub shifted-Follows :
      (l : Lengths) (b : SyncBuffer V) (padded : List Sample)
      → b.num_items ≡ buffer_len b.lengths
      → Follows l b padded
      → Follows l (shifted b) padded
  shifted-Follows l b padded at_end h =
      let k = b.lengths.block_len in
      record {
        same_lengths = h.same_lengths;
        counted = omega (arith, h.counted);
        whole_signal = length-rotate k b.signal ∙ h.whole_signal;
        whole_correlation = length-rotate k b.correlation ∙ h.whole_correlation;
        within = omega arith;
        marker = h.marker;
        signals = λ i lt.
            let place : b.offset_counter + (k + i) ≡ b.offset_counter + k + i = omega arith in
            get_or-rotate k b.signal i silence (omega (arith, h.whole_signal))
            ∙ h.signals (k + i) (omega arith)
            ∙ ap (λ j. get_or padded j silence) place;
        correlations = λ i behind fits.
            let place : b.offset_counter + (k + i) ≡ b.offset_counter + k + i = omega arith in
            get_or-rotate k b.correlation i no_correlation
              (omega (arith, h.whole_correlation, h.marker))
            ∙ h.correlations (k + i) (omega arith) (omega arith)
            ∙ ap (λ j. dot_product (samples_at silence j b.lengths.asm_len padded)) place;
      }

  -- A shift that returns was made on a full buffer.
  pub advance-eq-ok :
      (b b' : SyncBuffer V)
      → advance b ≡ ok b'
      → (b.num_items ≡ buffer_len b.lengths) × (shifted b ≡ b')
  unfolding advance
  advance-eq-ok b b' e = elim (Bool-cases (full b)) [
    | inl test ↦ (
      (==_iff b.num_items (buffer_len b.lengths)).0 test,
      ok-injective (sym (ap (choice b) test) ∙ e),
    )
    | inr test ↦ absurd (refused (sym (ap (choice b) test) ∙ e))
  ]
    where
      choice : SyncBuffer V → Bool → Result (SyncBuffer V)
      choice b t = if t then ok (shifted b) else err runtime_error

      refused : {y : SyncBuffer V} → Result.err runtime_error ≡ ok y → ⊥
      refused p = cc

  step-Follows :
      (l : Lengths) (b b' : SyncBuffer V) (padded taken : List Sample) (o : Operation V)
      → step b o ≡ ok (b', taken)
      → Follows l b padded
      → Follows l b' (padded ++ taken)
  unfolding step read_signal
  step-Follows l b b' padded taken (reads input snr) e h =
      subst (λ (r : SyncBuffer V × List Sample). Follows l r.0 (padded ++ r.1)) (ok-injective e)
        (read_signal-Follows l b padded input h snr)
  step-Follows l b b' padded taken advances e h =
      let (after, moved, same) = >>=-eq-ok (advance b) (λ b'. ok (b', [])) e in
      let (at_end, shift) = advance-eq-ok b after moved in
      subst (λ (r : SyncBuffer V × List Sample). Follows l r.0 (padded ++ r.1)) (ok-injective same)
        (subst (λ b. Follows l b (padded ++ [])) shift
          (subst (Follows l (shifted b)) (sym (append-nil padded))
            (shifted-Follows l b padded at_end h)))

  run-Follows :
      (l : Lengths) (b b' : SyncBuffer V) (padded taken : List Sample) (os : List (Operation V))
      → run b os ≡ ok (b', taken)
      → Follows l b padded
      → Follows l b' (padded ++ taken)
  unfolding run
  run-Follows l b b' padded taken [] e h =
      subst (λ (r : SyncBuffer V × List Sample). Follows l r.0 (padded ++ r.1)) (ok-injective e)
        (subst (Follows l b) (sym (append-nil padded)) h)
  run-Follows l b b' padded taken (o ∷ os) e h =
      let (first, stepped, went_on) = >>=-eq-ok (step b o) _ e in
      let (last, others, same) = >>=-eq-ok (run first.0 os) _ went_on in
      subst (λ (r : SyncBuffer V × List Sample). Follows l r.0 (padded ++ r.1)) (ok-injective same)
        (subst (Follows l last.0) (append_assoc padded first.1 last.1) (
          run-Follows l first.0 last.0 (padded ++ first.1) last.1 os others
            (step-Follows l b first.0 padded first.1 o stepped h)))

  module _ (l : Lengths) (b : SyncBuffer V) (taken : List Sample) (p : ℕ)
      (h : Follows l b (after_silence V l taken)) where
    -- Where position `p` stands in the padded signal.
    place :
        offset_start b ≤ p
        → b.offset_counter + local_offset b p ≡ length (replicate (history_len l) silence) + p
    place starts =
        omega (arith, length-replicate (history_len l) silence, ap history_len h.same_lengths)

    length-padded : length (after_silence V l taken) ≡ history_len l + length taken
    length-padded = omega (
      arith,
      length-replicate (history_len l) silence,
      length-append (replicate (history_len l) silence) taken,
    )

    -- How much the buffer has taken.
    pub Follows-length : b.offset_counter + b.num_items ≡ history_len b.lengths + length taken
    Follows-length = omega (arith, h.counted, length-padded, ap history_len h.same_lengths)

    pub Follows-window :
        offset_start b ≤ p → p < length taken → signal_at b p ≡ get_or taken p silence
    Follows-window starts read =
        h.signals (local_offset b p) (
          omega (
            arith,
            h.counted,
            length-padded,
            place starts,
            length-replicate (history_len l) silence,
          ))
        ∙ ap (λ j. get_or (after_silence V l taken) j silence) (place starts)
        ∙ get_or-append_right (replicate (history_len l) silence) taken p silence

    Follows-correlation :
        offset_start b ≤ p
        → p + l.asm_len < length taken
        → correlation_at b p ≡ dot_product (samples_at silence p l.asm_len taken)
    Follows-correlation starts read =
        let padded = after_silence V l taken in
        let i = local_offset b p in
        let same_marker = ap (λ (l : Lengths). l.asm_len) h.same_lengths in
        let same_history = ap history_len h.same_lengths in
        let silent = length-replicate (history_len l) silence in
        let here = place starts in
        h.correlations i (omega arith) (omega (arith, h.counted, length-padded))
        ∙ ap (λ n. dot_product (samples_at silence (b.offset_counter + i) n padded)) same_marker
        ∙ ap dot_product (
            samples_at-ext silence (b.offset_counter + i) p l.asm_len padded taken (λ m lt.
              let later : b.offset_counter + i + m
                  ≡ length (replicate (history_len l) silence) + (p + m) =
                omega arith in
              ap (λ j. get_or padded j silence) later
              ∙ get_or-append_right (replicate (history_len l) silence) taken (p + m) silence))

  module _ (l : Lengths) (os : List (Operation V)) (b : SyncBuffer V) (taken : List Sample)
      (p : ℕ) where
    made_Follows :
        1 ≤ l.asm_len → run (make V l) os ≡ ok (b, taken) → Follows l b (after_silence V l taken)
    made_Follows marker e =
        run-Follows l (make V l) b (replicate (history_len l) silence) taken os e
          (make-Follows l marker)

    -- After any reads and shifts of a new buffer, as long as none of them raises: for a position `p` of
    -- the signal that is not before the start of the buffer and has been read, the buffer answers the
    -- `p`-th of all the samples that it took. The marker has one symbol at least.
    pub run-window :
        1 ≤ l.asm_len
        → run (make V l) os ≡ ok (b, taken)
        → offset_start b ≤ p
        → p < length taken
        → signal_at b p ≡ get_or taken p silence
    run-window marker e starts read = Follows-window l b taken p (made_Follows marker e) starts read

    -- After any reads and shifts of a new buffer, as long as none of them raises: for a position `p` that
    -- is not before the start of the buffer, and from which on more samples than the marker has symbols
    -- were read, the correlation is that of the marker with the samples from `p` on. The marker has one
    -- symbol at least.
    pub run-correlation :
        1 ≤ l.asm_len
        → run (make V l) os ≡ ok (b, taken)
        → offset_start b ≤ p
        → p + l.asm_len < length taken
        → correlation_at b p ≡ dot_product (samples_at silence p l.asm_len taken)
    run-correlation marker e starts read =
        Follows-correlation l b taken p (made_Follows marker e) starts read
