-- ===== src/FrameSearch/Tasks.antt =====
-- lib/frame_sync_impl.cc: the queue of frames that are copied out of the signal, with lib/asm_position.cc
-- and lib/asm_header.cc. What constellations, estimates and VOLK compute is a parameter.
use gr_ccsds.Prelude.{
  ℕ, suc, ◌+◌, ◌-◌, Bool, true, false, ◌&&◌, List, [], ◌∷◌, ◌++◌, String, Result, ok, err,
  runtime_error, replicate, ltb, ◌==◌, if◌then◌else◌,
}
use gr_ccsds.Prelude.Int.{ℤ, pos, negsuc}
use gr_ccsds.SyncBuffer.Defs.{Dsp}

-- Two estimates, the offset of the first one and their distance.
abbrev pub Interpolation : Dsp → Type 0
Interpolation V = V.Snr × V.Snr × ℕ × ℕ

-- A value in a header: an unsigned and a signed number, a float, a truth value, nothing, or any other
-- value, which a tag of the stream may have.
pub data Value (Float : Type 0) : Type 0 where
  number : ℕ → Value Float
  signed : ℤ → Value Float
  amount : Float → Value Float
  truth : Bool → Value Float
  nil : Value Float
  other : ℕ → Value Float

pub record Radio : Type 1 where
  pub dsp : Dsp
  pub Float : Type 0
  pub Rotation : Type 0
  pub Lut : Type 0
  pub Estimator : Type 0
  -- std::isfinite(a), a > b, and 0.0
  pub is_finite : Float → Bool
  pub greater : Float → Float → Bool
  pub zero_float : Float
  pub abs : dsp.Correlation → Float
  -- the first number less the sum of the energies
  pub less_energy : Float → List dsp.Energy → Float
  pub detect_ambiguity : dsp.Correlation → ℕ
  -- the conjugate of the symbol of an ambiguity, of length one
  pub amb_correction : ℕ → Rotation
  pub rotate_symbol : dsp.Sample → Rotation → dsp.Sample
  -- score and correlation of a header, in per cent, for the marker's length
  pub score : Rotation → dsp.Correlation → List dsp.Energy → Float
  pub correlation_pct : Rotation → dsp.Correlation → ℕ → Float
  pub snr_db : Interpolation dsp → Float
  pub es_start : Interpolation dsp → Float
  pub es_slope : Interpolation dsp → Float
  pub n0_start : Interpolation dsp → Float
  pub n0_slope : Interpolation dsp → Float
  -- the table for the noise at a number of symbols behind the start
  pub gen_soft_dec_lut : Interpolation dsp → ℕ → Lut
  pub soft_decision_maker : Lut → dsp.Sample → List Float
  pub first_estimator : Estimator
  pub update : Estimator → List dsp.Sample → Estimator
  pub get_snr : Estimator → dsp.Snr
  -- the dictionaries of PMT; dict_ref has PMT_NIL for a missing key
  pub Dict : Type 0
  pub make_dict : Dict
  pub dict_add : Dict → String → Value Float → Dict
  pub dict_ref : Dict → String → Value Float
  pub dict_update : Dict → Dict → Dict

pub record AsmPosition : Type 0 where
  pub offset : ℕ
  pub ambiguity : ℕ
  pub sequence : ℕ

abbrev pub matches : AsmPosition → AsmPosition → Bool
matches p q = (q.offset == p.offset) && (q.ambiguity == p.ambiguity)

-- frame_sync_config and frame_generation_config, as far as the block reads them
pub record Config : Type 0 where
  pub block_len : ℕ
  pub asm_len : ℕ
  pub head_num_symbols : ℤ
  pub output_num_symbols : ℕ
  pub bits_per_symbol : ℕ
  pub frames_before : ℕ
  pub frames_after : ℕ

-- The header of a frame, and tags of the stream.
abbrev pub Header : Radio → Type 0
Header R = R.Dict

abbrev pub Tags : Radio → Type 0
Tags R = List (String × Value R.Float)

module _ (R : Radio) where
  open R use {Float, Rotation}

  -- The buffer of a message in its groups of bits, one group for each symbol.
  pub record FrameCopyTask : Type 0 where
    pub num_symbols_total : ℕ
    pub amb_correction : Rotation
    pub asm_pos : AsmPosition
    pub copy_from : ℕ
    pub primary : Bool
    pub header : R.Dict
    pub msg_buffer : List (List Float)
    pub num_symbols_copied : ℕ
    pub header_computed : Bool

module _ {R : Radio} where
  open R use {Float, Rotation, zero_float}

  abbrev pub data_complete : FrameCopyTask R → Bool
  data_complete t = t.num_symbols_copied == t.num_symbols_total

  abbrev pub num_remaining : FrameCopyTask R → ℕ
  num_remaining t = t.num_symbols_total - t.num_symbols_copied

  -- std::find_if for a task at the position
  unfoldable pub is_queued : AsmPosition → List (FrameCopyTask R) → Bool
  is_queued info [] = false
  is_queued info (t ∷ ts) =
      let rest = is_queued info ts in if matches info t.asm_pos then true else rest

  -- erase() at what std::find_if finds
  unfoldable pub erase : AsmPosition → List (FrameCopyTask R) → List (FrameCopyTask R)
  erase info [] = []
  erase info (t ∷ ts) = let rest = erase info ts in if matches info t.asm_pos then ts else t ∷ rest

abbrev pub num_head_symbols : Config → ℕ
num_head_symbols c = elim c.head_num_symbols [ pos h ↦ h | negsuc k ↦ 0 ]

-- add_signed_to_unsigned(offset + asm_len, -head_num_symbols)
abbrev pub copy_start : Config → ℕ → ℕ
copy_start c offset = elim c.head_num_symbols [
  | pos h ↦ offset + c.asm_len - h
  | negsuc k ↦ offset + c.asm_len + suc k
]

module _ (R : Radio) where
  abbrev pub make_task : Config → AsmPosition → Bool → FrameCopyTask R
  make_task c info primary = record {
    num_symbols_total = c.output_num_symbols;
    amb_correction = R.amb_correction info.ambiguity;
    asm_pos = info;
    copy_from = copy_start c info.offset;
    primary = primary;
    header = R.make_dict;
    msg_buffer = replicate c.output_num_symbols (replicate c.bits_per_symbol R.zero_float);
    num_symbols_copied = 0;
    header_computed = false;
  }

module _ {R : Radio} where
  -- queueFrameOutput(info, primary), without the assertion
  unfoldable pub queue_frame_output :
      Config → AsmPosition → Bool → List (FrameCopyTask R) → Result (List (FrameCopyTask R))
  queue_frame_output c info primary queue =
      let t = make_task R c info primary in
      if ltb info.offset (num_head_symbols c)
      then err runtime_error
      else ok (
          if is_queued info queue
          then (if primary then erase info queue ++ t ∷ [] else queue)
          else queue ++ t ∷ [])
