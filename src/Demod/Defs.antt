-- ===== src/Demod/Defs.antt =====
-- The state of `bpsk_demod`, and `__init__`.
use gr_ccsds.Prelude.{Option, none, Bool, true, false, Result, ok, err, system_exit}

-- Python's numbers, and the filter design of GNU Radio: neither is code of the repository.
pub record Library : Type 1 where
  pub Number : Type 0
  pub times : Number → Number → Number
  pub halve : Number → Number
  pub one : Number
  -- 6.28/100
  pub default_loop_bw : Number
  pub Taps : Type 0
  -- firdes.low_pass(1, samp_rate, cutoff, transition width, window, beta)
  pub low_pass : Number → Number → Number → Taps
  -- firdes.band_pass(1, samp_rate, low cutoff, high cutoff, transition width, window, beta)
  pub band_pass : Number → Number → Number → Number → Taps

-- The variables, and of each block the parameters that are made from one of them. The two displays are
-- attributes that may not exist.
pub record Demod (l : Library) : Type 0 where
  pub omega : l.Number
  pub bit_rate : l.Number
  pub usrp_gain : l.Number
  pub samp_rate : l.Number
  pub lpf_interp : l.Number
  pub loop_bw : l.Number
  pub freq : l.Number
  pub bp_transition_width : l.Number
  pub beta : l.Number
  pub source_samp_rate : l.Number
  pub source_center_freq : l.Number
  pub source_gain : l.Number
  -- made from lpf_interp, and reached by no setter
  pub low_pass_interpolation : l.Number
  pub low_pass_taps : l.Taps
  pub band_pass_taps : l.Taps
  pub costas_bandwidth : l.Number
  pub clock_omega : l.Number
  pub scope_samp_rate : Option l.Number
  pub fft_samp_rate : Option l.Number

-- `usrp_found` is false where `uhd.usrp_source` raises RuntimeError. The lines that would make the two
-- displays are commented out.
unfoldable pub init :
    (l : Library) → Bool → l.Number → l.Number → l.Number → l.Number → Result (Demod l)
init l false centre_freq usrp_gain samp_per_sym sym_rate = err (system_exit 1)
init l true centre_freq usrp_gain samp_per_sym sym_rate =
    let samp_rate = l.times sym_rate samp_per_sym in
    let width = l.halve sym_rate in
    ok (record {
      omega = samp_per_sym;
      bit_rate = sym_rate;
      usrp_gain = usrp_gain;
      samp_rate = samp_rate;
      lpf_interp = l.one;
      loop_bw = l.default_loop_bw;
      freq = centre_freq;
      bp_transition_width = width;
      beta = l.one;
      source_samp_rate = samp_rate;
      source_center_freq = centre_freq;
      source_gain = usrp_gain;
      low_pass_interpolation = l.one;
      low_pass_taps = l.low_pass samp_rate (l.times sym_rate l.one) width;
      band_pass_taps = l.band_pass samp_rate l.one sym_rate width;
      costas_bandwidth = l.default_loop_bw;
      clock_omega = samp_per_sym;
      scope_samp_rate = none;
      fft_samp_rate = none;
    })
