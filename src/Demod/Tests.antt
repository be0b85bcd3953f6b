-- ===== src/Demod/Tests.antt =====
-- The demodulator with numbers that stand for the library's, and the theorems at this instance.
use gr_ccsds.Prelude.{◌≡◌, refl, ℕ, ◌*◌, ◌/◌, none, some, true, ok, List, [], ◌∷◌}
use gr_ccsds.Demod.Defs.{Library, Demod, init}
use gr_ccsds.Demod.Setters.{samp_rate}
use gr_ccsds.Demod.Laws.{IsConsistent}
use gr_ccsds.Demod.Rates.{StopsAtScope, call_without_scope}

-- Taps are kept as the list of the arguments they are designed from.
abbrev library : Library
library = record {
  Number = ℕ;
  times = λ a b. a * b;
  halve = λ a. a / 2;
  one = 1;
  default_loop_bw = 6;
  Taps = List ℕ;
  low_pass = λ a b c. a ∷ b ∷ c ∷ [];
  band_pass = λ a b c d. a ∷ b ∷ c ∷ d ∷ [];
}

abbrev made : Demod library
made = record {
  omega = 4;
  bit_rate = 200;
  usrp_gain = 20;
  samp_rate = 800;
  lpf_interp = 1;
  loop_bw = 6;
  freq = 2235;
  bp_transition_width = 100;
  beta = 1;
  source_samp_rate = 800;
  source_center_freq = 2235;
  source_gain = 20;
  low_pass_interpolation = 1;
  low_pass_taps = 800 ∷ 200 ∷ 100 ∷ [];
  band_pass_taps = 800 ∷ 1 ∷ 200 ∷ 100 ∷ [];
  costas_bandwidth = 6;
  clock_omega = 4;
  scope_samp_rate = none;
  fft_samp_rate = none;
}

init_makes : init library true 2235 20 4 200 ≡ ok made
unfolding init
init_makes = refl

made-IsConsistent : IsConsistent library made
made-IsConsistent = record {
  rate = refl;
  center = refl;
  gain = refl;
  interpolation = refl;
  low = refl;
  band = refl;
  loop = refl;
  clock = refl;
}

-- The object as it would be with the two displays in place.
abbrev shown : Demod library
shown = record made { scope_samp_rate = some 800; fft_samp_rate = some 800 }

shown-IsConsistent : IsConsistent library shown
shown-IsConsistent = record {
  rate = refl;
  center = refl;
  gain = refl;
  interpolation = refl;
  low = refl;
  band = refl;
  loop = refl;
  clock = refl;
}

call_without_scope_example : StopsAtScope library samp_rate 1000 made
call_without_scope_example = call_without_scope library samp_rate 1000 made refl refl
