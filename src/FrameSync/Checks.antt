-- ===== src/FrameSync/Checks.antt =====
-- The options of python/bpsk_frame_sync.py, and the tests on them in `main`.
use gr_ccsds.Prelude.{
  ◌≡◌, ◌≢◌, ◌↔◌, Option, none, some, Bool, true, false, ◌&&◌, not, List, [], ◌∷◌, Text, Result, ok,
  err, system_exit, ◌>>◌, refuse_if, arith,
}
use gr_ccsds.Prelude.Int.{ℤ}

-- The options as OptionParser leaves them, and the arguments that are no options.
pub record Arguments : Type 0 where
  pub from_file : Option Text
  pub repeat_file : Bool
  pub access_code : Option Text
  pub threshold : ℤ
  pub viterbi27 : Bool
  pub to_file : Option Text
  pub rest : List Text

abbrev pub is_none : Option Text → Bool
is_none none = true
is_none (some t) = false

abbrev pub is_empty : List Text → Bool
is_empty [] = true
is_empty (t ∷ ts) = false

-- The three tests of `main`, each with its exit.
unfoldable pub check_arguments : Arguments → Result (Unit {0})
check_arguments o = do
  refuse_if (not (is_empty o.rest)) (system_exit 1)
  refuse_if (is_none o.from_file) (system_exit 1)
  refuse_if (o.viterbi27 && is_none o.to_file) (system_exit 1)

-- The arguments that `main` accepts: nothing but options, an input file, and an output file if the
-- frames are to be decoded.
abbrev pub Accepted : Arguments → Type 0
Accepted o = (o.rest ≡ []) × (o.from_file ≢ none) × (o.viterbi27 ≡ true → o.to_file ≢ none)

-- `main` goes on exactly with the arguments that have nothing but options, an input file, and an
-- output file if the frames are to be decoded; with all others it exits with status 1.
pub check_arguments_iff :
    (o : Arguments)
    → ((check_arguments o ≡ ok tt) ↔ Accepted o)
      × (check_arguments o ≢ ok tt → check_arguments o ≡ err (system_exit 1))
unfolding check_arguments
check_arguments_iff o = ground arith
