-- ===== src/Demod/Laws.antt =====
-- Do the blocks follow the variables?
use gr_ccsds.Prelude.{◌≡◌, ◌≢◌, refl, none, Bool, true, false, ok}
use gr_ccsds.Demod.Defs.{Library, Demod, init}
use gr_ccsds.Demod.Setters.{
  Setter, omega, bit_rate, usrp_gain, samp_rate, lpf_interp, loop_bw, freq, bp_transition_width,
  beta, call,
}

-- Every block has the parameters that the variables say.
pub record IsConsistent (l : Library) (s : Demod l) : Type 0 where
  pub rate : s.source_samp_rate ≡ s.samp_rate
  pub center : s.source_center_freq ≡ s.freq
  pub gain : s.source_gain ≡ s.usrp_gain
  pub interpolation : s.low_pass_interpolation ≡ s.lpf_interp
  pub low :
      s.low_pass_taps ≡ l.low_pass s.samp_rate (l.times s.bit_rate l.one) s.bp_transition_width
  pub band : s.band_pass_taps ≡ l.band_pass s.samp_rate l.one s.bit_rate s.bp_transition_width
  pub loop : s.costas_bandwidth ≡ s.loop_bw
  pub clock : s.clock_omega ≡ s.omega

-- The object that `__init__` makes is consistent, and has neither display.
pub init-IsConsistent :
    (l : Library) (freq₀ gain₀ sps₀ rate₀ : l.Number)
    → (s : Demod l) × (init l true freq₀ gain₀ sps₀ rate₀ ≡ ok s)
      × IsConsistent l s
      × (s.scope_samp_rate ≡ none)
      × (s.fft_samp_rate ≡ none)
unfolding init
init-IsConsistent l freq₀ gain₀ sps₀ rate₀ = (
  _,
  refl,
  record {
    rate = refl;
    center = refl;
    gain = refl;
    interpolation = refl;
    low = refl;
    band = refl;
    loop = refl;
    clock = refl;
  },
  refl,
  refl,
)

-- The setters that change the sample rate.
abbrev pub changes_rate : Setter → Bool
changes_rate omega = true
changes_rate bit_rate = true
changes_rate samp_rate = true
changes_rate _ = false

-- On a consistent object every setter that leaves the sample rate and the interpolation alone returns,
-- and leaves a consistent object with the same displays.
pub call-IsConsistent :
    (l : Library) (c : Setter) (v : l.Number) (s : Demod l)
    → changes_rate c ≡ false
    → c ≢ lpf_interp
    → IsConsistent l s
    → (s' : Demod l) × (call l c v s ≡ (s', ok tt))
      × IsConsistent l s'
      × (s'.scope_samp_rate ≡ s.scope_samp_rate)
      × (s'.fft_samp_rate ≡ s.fft_samp_rate)
unfolding call
call-IsConsistent l omega v s e other h = cc
call-IsConsistent l bit_rate v s e other h = cc
call-IsConsistent l samp_rate v s e other h = cc
call-IsConsistent l usrp_gain v s e other h = (
  _,
  refl,
  record {
    rate = h.rate;
    center = h.center;
    gain = refl;
    interpolation = h.interpolation;
    low = h.low;
    band = h.band;
    loop = h.loop;
    clock = h.clock;
  },
  refl,
  refl,
)
call-IsConsistent l lpf_interp v s e other h = absurd (other refl)
call-IsConsistent l loop_bw v s e other h = (
  _,
  refl,
  record {
    rate = h.rate;
    center = h.center;
    gain = h.gain;
    interpolation = h.interpolation;
    low = h.low;
    band = h.band;
    loop = refl;
    clock = h.clock;
  },
  refl,
  refl,
)
call-IsConsistent l freq v s e other h = (
  _,
  refl,
  record {
    rate = h.rate;
    center = refl;
    gain = h.gain;
    interpolation = h.interpolation;
    low = h.low;
    band = h.band;
    loop = h.loop;
    clock = h.clock;
  },
  refl,
  refl,
)
call-IsConsistent l bp_transition_width v s e other h = (
  _,
  refl,
  record {
    rate = h.rate;
    center = h.center;
    gain = h.gain;
    interpolation = h.interpolation;
    low = refl;
    band = refl;
    loop = h.loop;
    clock = h.clock;
  },
  refl,
  refl,
)
call-IsConsistent l beta v s e other h = (
  _,
  refl,
  record {
    rate = h.rate;
    center = h.center;
    gain = h.gain;
    interpolation = h.interpolation;
    low = h.low;
    band = h.band;
    loop = h.loop;
    clock = h.clock;
  },
  refl,
  refl,
)

-- The setter of the interpolation returns with the new value in the variable, and leaves the low-pass
-- filter at the one that it was made with.
pub set_lpf_interp_lem :
    (l : Library) (v : l.Number) (s : Demod l)
    → (s' : Demod l) × (call l lpf_interp v s ≡ (s', ok tt))
      × (s'.lpf_interp ≡ v)
      × (s'.low_pass_interpolation ≡ s.low_pass_interpolation)
unfolding call
set_lpf_interp_lem l v s = (_, refl, refl, refl)
