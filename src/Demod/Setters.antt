-- ===== src/Demod/Setters.antt =====
-- The setters of `bpsk_demod`. A setter that raises leaves behind what it had changed until then.
use gr_ccsds.Prelude.{none, some, Result, ok, err, attribute_error}
use gr_ccsds.Demod.Defs.{Library, Demod}

abbrev pub Action : Library → Type 0
Action l = Demod l → Demod l × Result (Unit {0})

infixl 5 ◌>>◌
abbrev pub ◌>>◌ : {l : Library} → Action l → Action l → Action l
◌>>◌ m k s = let (s', r) = m s in elim r [ ok _ ↦ k s' | err e ↦ (s', err e) ]

abbrev done : {l : Library} → Demod l → Demod l × Result (Unit {0})
done s = (s, ok tt)

module _ (l : Library) where
  -- self.band_pass_filter_0.set_taps(...)
  abbrev pub update_band_pass : Action l
  update_band_pass s =
      done (record s {
        band_pass_taps = l.band_pass s.samp_rate l.one s.bit_rate s.bp_transition_width;
      })

  -- self.low_pass_filter_0.set_taps(...)
  abbrev pub update_low_pass : Action l
  update_low_pass s = done (record s {
    low_pass_taps = l.low_pass s.samp_rate (l.times s.bit_rate l.one) s.bp_transition_width;
  })

  -- self.wxgui_scopesink2_0_0.set_sample_rate(self.samp_rate)
  abbrev pub update_scope : Action l
  update_scope s = elim s.scope_samp_rate [
    | none ↦ (s, err attribute_error)
    | some _ ↦ done (record s { scope_samp_rate = some s.samp_rate })
  ]

  -- self.wxgui_fftsink2_0.set_sample_rate(self.samp_rate)
  abbrev pub update_fft : Action l
  update_fft s = elim s.fft_samp_rate [
    | none ↦ (s, err attribute_error)
    | some _ ↦ done (record s { fft_samp_rate = some s.samp_rate })
  ]

  unfoldable pub set_usrp_gain : l.Number → Action l
  set_usrp_gain v s = done (record s { usrp_gain = v; source_gain = v })

  unfoldable pub set_samp_rate : l.Number → Action l
  set_samp_rate v =
      (λ s. done (record s { samp_rate = v }))
      >> update_band_pass
      >> update_low_pass
      >> update_scope
      >> update_fft
      >> (λ s. done (record s { source_samp_rate = s.samp_rate }))

  unfoldable pub set_omega : l.Number → Action l
  unfolding set_samp_rate
  set_omega v =
      (λ s. done (record s { omega = v }))
      >> (λ s. set_samp_rate (l.times s.bit_rate s.omega) s)
      >> (λ s. done (record s { clock_omega = s.omega }))

  unfoldable pub set_bp_transition_width : l.Number → Action l
  set_bp_transition_width v =
      (λ s. done (record s { bp_transition_width = v })) >> update_band_pass >> update_low_pass

  unfoldable pub set_bit_rate : l.Number → Action l
  unfolding set_samp_rate set_bp_transition_width
  set_bit_rate v =
      (λ s. done (record s { bit_rate = v }))
      >> (λ s. set_samp_rate (l.times s.bit_rate s.omega) s)
      >> update_band_pass
      >> update_low_pass
      >> (λ s. set_bp_transition_width (l.halve s.bit_rate) s)

  unfoldable pub set_lpf_interp : l.Number → Action l
  set_lpf_interp v s = done (record s { lpf_interp = v })

  unfoldable pub set_loop_bw : l.Number → Action l
  set_loop_bw v s = done (record s { loop_bw = v; costas_bandwidth = v })

  unfoldable pub set_freq : l.Number → Action l
  set_freq v s = done (record s { freq = v; source_center_freq = v })

  unfoldable pub set_beta : l.Number → Action l
  set_beta v s = done (record s { beta = v })

-- A call of a setter from outside.
pub data Setter : Type 0 where
  omega bit_rate usrp_gain samp_rate lpf_interp loop_bw freq bp_transition_width beta : Setter

unfoldable pub call : (l : Library) → Setter → l.Number → Action l
unfolding set_omega set_bit_rate set_usrp_gain set_samp_rate set_lpf_interp set_loop_bw set_freq
    set_bp_transition_width set_beta
call l omega = set_omega l
call l bit_rate = set_bit_rate l
call l usrp_gain = set_usrp_gain l
call l samp_rate = set_samp_rate l
call l lpf_interp = set_lpf_interp l
call l loop_bw = set_loop_bw l
call l freq = set_freq l
call l bp_transition_width = set_bp_transition_width l
call l beta = set_beta l
