-- ===== src/FrameSearch/Copied.antt =====
-- What the queue of frames holds of the signal: each symbol that a task has copied.
use gr_ccsds.Prelude.{
  ℕ, suc, ◌+◌, ◌-◌, ◌≤◌, ◌<◌, ◌≡◌, refl, sym, ap, ◌∙◌, subst, Bool, true, if-intro, List, [], ◌∷◌,
  ◌++◌, ok, guarded-eq-ok, runtime_error, length, length-append, length-replicate, get_or, All,
  All-append, if◌then◌else◌, ltb, arith,
}
use gr_ccsds.Prelude.Access.{get_or-append_left}
use gr_ccsds.Prelude.Int.{ℤ, pos, negsuc}
use gr_ccsds.SyncBuffer.Defs.{Dsp, SyncBuffer, offset_start, offset_last_symbol, signal_at}
use gr_ccsds.FrameSearch.Tasks.{
  Radio, AsmPosition, Config, FrameCopyTask, matches, is_queued, erase, num_head_symbols,
  copy_start, make_task, queue_frame_output,
}
use gr_ccsds.FrameSearch.Process.{pick_smaller}

-- The soft bits are those of the sample at a position of the stream, turned by an ambiguity, for some
-- noise.
abbrev pub Decoded : (R : Radio) → List R.dsp.Sample → ℕ → ℕ → List R.Float → Type 0
Decoded R stream ambiguity position group =
    (position < length stream)
    × ((lut : R.Lut) × (group
          ≡ R.soft_decision_maker lut (
              R.rotate_symbol (get_or stream position R.dsp.silence) (R.amb_correction ambiguity))))

-- The buffer answers the samples of the stream.
abbrev pub Answers : {V : Dsp} → List V.Sample → SyncBuffer V → Type 0
Answers {V} stream b =
    (p : ℕ)
    → 1 ≤ p
    → offset_start b ≤ p
    → p ≤ offset_last_symbol b
    → (p < length stream) × (signal_at b p ≡ get_or stream p V.silence)

pub pick_smaller-le : (m n : ℕ) → (pick_smaller m n ≤ m) × (pick_smaller m n ≤ n)
pick_smaller-le m n = ground arith

-- Where the first symbol to copy stands behind the start of the stream.
pub copy_start-pos :
    (c : Config) (offset : ℕ)
    → num_head_symbols c ≤ offset
    → 1 ≤ c.asm_len
    → 1 ≤ copy_start c offset
copy_start-pos c offset fits marker = start c.head_num_symbols fits
  where
    start :
        (head : ℤ)
        → elim head [ pos h ↦ h | negsuc k ↦ 0 ] ≤ offset
        → 1 ≤ elim head [ pos h ↦ offset + c.asm_len - h | negsuc k ↦ offset + c.asm_len + suc k ]
    start (pos h) fits = omega arith
    start (negsuc k) fits = omega arith

pub copy_start-head :
    (c : Config) (offset : ℕ) → offset + c.asm_len ≤ copy_start c offset + num_head_symbols c
copy_start-head c offset = start c.head_num_symbols
  where
    start :
        (head : ℤ)
        → offset + c.asm_len
          ≤ elim head [ pos h ↦ offset + c.asm_len - h | negsuc k ↦ offset + c.asm_len + suc k ]
            + elim head [ pos h ↦ h | negsuc k ↦ 0 ]
    start (pos h) = omega arith
    start (negsuc k) = omega arith

pub copy_start-behind :
    (c : Config) (offset : ℕ) → num_head_symbols c ≡ 0 → offset + c.asm_len ≤ copy_start c offset
copy_start-behind c offset none = omega (arith, none, copy_start-head c offset)

module _ {R : Radio} (c : Config) (stream : List R.dsp.Sample) where
  open R use {Lut, dsp}

  -- The task has copied the samples from its first one on, in order, each to its place.
  pub record Copied (t : FrameCopyTask R) : Type 0 where
    pub whole : t.num_symbols_total ≡ c.output_num_symbols
    pub slots : length t.msg_buffer ≡ c.output_num_symbols
    pub within : t.num_symbols_copied ≤ c.output_num_symbols
    pub behind_head : num_head_symbols c ≤ t.asm_pos.offset
    pub place : t.copy_from ≡ copy_start c t.asm_pos.offset + t.num_symbols_copied
    pub turned : t.amb_correction ≡ R.amb_correction t.asm_pos.ambiguity
    -- Where no head is before the marker, a task that has copied anything has its header.
    pub headed : num_head_symbols c ≡ 0 → 0 < t.num_symbols_copied → t.header_computed ≡ true
    pub symbols :
        (m : ℕ)
        → m < t.num_symbols_copied
        → Decoded R stream t.asm_pos.ambiguity
            (copy_start c t.asm_pos.offset + m)
            (get_or t.msg_buffer m [])

  make_task-Copied :
      (info : AsmPosition) (primary : Bool)
      → num_head_symbols c ≤ info.offset
      → Copied (make_task R c info primary)
  make_task-Copied info primary fits = record {
    whole = refl;
    slots = length-replicate _ _;
    within = omega arith;
    behind_head = fits;
    place = omega arith;
    turned = refl;
    headed = λ none some. absurd (omega arith);
    symbols = λ m lt. absurd (omega arith);
  }

  -- A position that is queued has the head behind it in the signal.
  pub queue_frame_output-eq-ok :
      (info : AsmPosition) (primary : Bool) (queue queue' : List (FrameCopyTask R))
      → queue_frame_output c info primary queue ≡ ok queue'
      → (num_head_symbols c ≤ info.offset)
        × ((if is_queued info queue
              then (if primary then erase info queue ++ make_task R c info primary ∷ [] else queue)
              else queue ++ make_task R c info primary ∷ [])
            ≡ queue')
  unfolding queue_frame_output
  queue_frame_output-eq-ok info primary queue queue' e =
      let (fits, same) = guarded-eq-ok (ltb info.offset (num_head_symbols c)) runtime_error _ e in
      (ground (arith, fits), same)

  erase-All :
      (P : FrameCopyTask R → Type 0) (info : AsmPosition) (queue : List (FrameCopyTask R))
      → All P queue
      → All P (erase info queue)
  unfolding erase
  erase-All P info [] h = h
  erase-All P info (t ∷ ts) h =
      if-intro (All P) (matches info t.asm_pos) _ _ (λ _. h.1) (λ _. (h.0, erase-All P info ts h.1))

  -- What the queued tasks and a fresh one have, the queue has after the call.
  pub queue_frame_output-All :
      (P : FrameCopyTask R → Type 0) (info : AsmPosition) (primary : Bool)
      (queue queue' : List (FrameCopyTask R))
      → queue_frame_output c info primary queue ≡ ok queue'
      → P (make_task R c info primary)
      → All P queue
      → All P queue'
  queue_frame_output-All P info primary queue queue' e made h =
      let same = (queue_frame_output-eq-ok info primary queue queue' e).1 in
      let fresh : All P (make_task R c info primary ∷ []) = (made, tt) in
      subst (All P) same (
        if-intro (All P) (is_queued info queue) _ _
          (λ _.
            if-intro (All P) primary _ _
              (λ _. All-append P (erase info queue) _ (erase-All P info queue h) fresh) (λ _. h))
          (λ _. All-append P queue _ h fresh))

  pub queue_frame_output-Copied :
      (info : AsmPosition) (primary : Bool) (queue queue' : List (FrameCopyTask R))
      → queue_frame_output c info primary queue ≡ ok queue'
      → All Copied queue
      → All Copied queue'
  queue_frame_output-Copied info primary queue queue' e h =
      let fits = (queue_frame_output-eq-ok info primary queue queue' e).0 in
      queue_frame_output-All Copied info primary queue queue' e (make_task-Copied info primary fits)
        h

-- A longer stream has the same symbols.
pub Copied-append :
    {R : Radio} (c : Config) (stream more : List R.dsp.Sample) (t : FrameCopyTask R)
    → Copied c stream t
    → Copied c (stream ++ more) t
Copied-append {R} c stream more t h = record {
  whole = h.whole;
  slots = h.slots;
  within = h.within;
  behind_head = h.behind_head;
  place = h.place;
  turned = h.turned;
  headed = h.headed;
  symbols = λ m lt.
      let (read, decoded) = h.symbols m lt in
      let (lut, same) = decoded in
      let p = copy_start c t.asm_pos.offset + m in
      (
        omega (arith, length-append stream more),
        (
          lut,
          same
              ∙ ap
                  (λ x.
                    R.soft_decision_maker lut
                      (R.rotate_symbol x (R.amb_correction t.asm_pos.ambiguity)))
                  (sym (get_or-append_left stream more p R.dsp.silence read)),
        ),
      );
}
