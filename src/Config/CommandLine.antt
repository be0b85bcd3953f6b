-- ===== src/Config/CommandLine.antt =====
-- `getCommandLineConfig` of python/bpsk_rx.py: the table of options, and what each occurrence of one
-- stores. The splitting of the arguments into occurrences, and the reading of a number, are OptionParser's.
use gr_ccsds.Prelude.{
  Option, true, List, [], ◌∷◌, Text, String, Result, ok, system_exit, or_raise, ◌>>=◌,
}
use gr_ccsds.Prelude.Int.{ℤ}
use gr_ccsds.Config.Values.{Value, boolean, integer, text}
use gr_ccsds.Config.Dict.{Dict, insert}
use gr_ccsds.Config.File.{find}

-- action="store_true", the action of an option without one, and the same with type="int"
pub data Action : Type 0 where
  store_true store_text store_int : Action

-- By its long name: what an option does, and its `dest`.
abbrev pub option_table : List (String × (Action × String))
option_table =
    ("--config", (store_text, "config_filename"))
    ∷ ("--from-usrp", (store_true, "from_usrp"))
    ∷ ("--freq", (store_int, "centre_freq"))
    ∷ ("--usrp-gain", (store_int, "usrp_gain"))
    ∷ ("--sps", (store_int, "sps"))
    ∷ ("--sym-rate", (store_int, "sym_rate"))
    ∷ ("--demod-out-filepath", (store_text, "file_path"))
    ∷ ("--from-file", (store_text, "from_file"))
    ∷ ("--repeat-file", (store_true, "repeat_file"))
    ∷ ("--ASM", (store_text, "access_code"))
    ∷ ("--threshold", (store_int, "sync_threshold"))
    ∷ ("--frame-syms", (store_int, "frame_syms"))
    ∷ ("--asm-syms", (store_int, "asm_syms"))
    ∷ ("--inspect-queue", (store_true, "inspect_queue"))
    ∷ ("--to-file", (store_text, "to_file"))
    ∷ ("--sync", (store_text, "sync"))
    ∷ ("--frame-sync", (store_true, "frame_sync"))
    ∷ ("--viterbi27", (store_true, "viterbi27"))
    ∷ ("--pseudo-derandomise", (store_true, "derandomise"))
    ∷ ("--reed-solomon", (store_true, "reed_solomon"))
    ∷ ("--frame-check", (store_true, "frame_check"))
    ∷ ("--verbose", (store_true, "verbose"))
    ∷ []

-- An option that stands on the command line, with its argument.
abbrev pub Occurrence : Type 0
Occurrence = String × Text

module _ (read_int : Text → Option ℤ) where
  -- The value that an action stores; a bad number ends the program with status 2.
  unfoldable pub stored : Action → Text → Result Value
  stored store_true argument = ok (boolean true)
  stored store_text argument = ok (text argument)
  stored store_int argument = do n ← or_raise (system_exit 2) (read_int argument); ok (integer n)

  -- An option that the table does not have ends the program in the same way.
  unfoldable pub take_option : Occurrence → Dict → Result Dict
  take_option (name, argument) d = do
    (action, dest) ← or_raise (system_exit 2) (find name option_table)
    v ← stored action argument
    ok (insert dest v d)

  unfoldable pub take_options : List Occurrence → Dict → Result Dict
  take_options [] d = ok d
  take_options (o ∷ os) d = do d' ← take_option o d; take_options os d'

  -- The dictionary that is returned, which only has what stands on the command line.
  abbrev pub get_command_line_config : List Occurrence → Result Dict
  get_command_line_config os = take_options os []
