-- ===== src/Config/Tests.antt =====
-- A configuration file like python/bpsk_rx.conf, and the theorems at inputs that meet their hypotheses.
use gr_ccsds.Prelude.{
  ◌≡◌, refl, Bool, true, false, Option, none, some, [], ◌∷◌, Text, codes, ok, err, system_exit,
  value_error,
}
use gr_ccsds.Prelude.Int.{ℤ, pos}
use gr_ccsds.Config.Values.{
  Value, nothing, boolean, integer, text, truthy, is_true, is_false, is_nothing,
}
use gr_ccsds.Config.Dict.{Dict, lookup, insert, or_else}
use gr_ccsds.Config.File.{
  File, find, convert, fetch, is_set, store, read_all, read_if, get_file_config, usrp_entries,
  file_entries, frame_sync_entries,
}
use gr_ccsds.Config.FileLaws.{Unset, gated_options}
use gr_ccsds.Config.Merge.{default_config, merge, configure}
use gr_ccsds.Config.MergeLaws.{merge_priority}
use gr_ccsds.Config.Main.{
  neither, only_first, len, check_source, check_sync, check_sink, fill_code, set_length, derive,
  prepare,
}
use gr_ccsds.Config.CommandLine.{
  option_table, stored, take_option, take_options, get_command_line_config,
}
use gr_ccsds.Config.Switches.{is_switch, derandomise_always_on}

-- Every text is taken for a float.
abbrev any_float : Text → Bool
any_float _ = true

abbrev sample : File
sample =
    (
      "General",
      ("from-usrp", some (codes "False"))
          ∷ ("from-file", some (codes "in.dat"))
          ∷ ("pseudo-derandomise", some (codes "False"))
          ∷ ("verbose", some (codes "on"))
          ∷ [],
    )
    ∷ ("USRP", ("freq", some (codes "2e9")) ∷ [])
    ∷ ("Demod", ("sps", some (codes " 4 ")) ∷ [])
    ∷ []

abbrev sample_config : Dict
sample_config =
    ("from_usrp", boolean false)
    ∷ ("from_file", text (codes "in.dat"))
    ∷ ("verbose", boolean true)
    ∷ ("sps", integer (pos 4))
    ∷ []

sample-get_file_config : get_file_config any_float (some sample) ≡ ok sample_config
unfolding get_file_config read_all read_if fetch convert store insert is_set lookup truthy
sample-get_file_config = refl

bad_boolean :
    get_file_config any_float (some (("General", ("verbose", some (codes "maybe")) ∷ []) ∷ []))
    ≡ err value_error
unfolding get_file_config read_all read_if fetch convert store insert is_set lookup truthy
bad_boolean = refl

gated_options_example :
    (is_set "from_usrp" sample_config ≡ false → Unset usrp_entries sample_config)
    × (is_set "from_file" sample_config ≡ false → Unset file_entries sample_config)
    × (is_set "frame_sync" sample_config ≡ false → Unset frame_sync_entries sample_config)
gated_options_example = gated_options any_float sample sample_config sample-get_file_config

abbrev cmdline : Dict
cmdline = ("inspect_queue", boolean true) ∷ []

abbrev merged : Dict
merged = merge default_config cmdline sample_config cmdline

abbrev reader : Value → Option File
reader _ = some sample

configured : configure any_float reader cmdline ≡ ok merged
unfolding configure
configured = rw sample-get_file_config refl

merge_priority_example :
    lookup "sps" merged
    ≡ or_else (lookup "sps" cmdline) (elim (find "sps" default_config) [
      | none ↦ none
      | some v ↦ or_else (lookup "sps" sample_config) (some v)
    ])
merge_priority_example = merge_priority default_config cmdline sample_config "sps"

sps_known : find "sps" default_config ≡ some (integer (pos 2))
unfolding find
sps_known = refl

abbrev options : Dict
options =
    ("from_usrp", boolean false)
    ∷ ("from_file", text (codes "in.dat"))
    ∷ ("inspect_queue", boolean true)
    ∷ ("to_file", nothing)
    ∷ ("frame_syms", integer (pos 20400))
    ∷ ("access_code", text (codes "1ACFFC1D"))
    ∷ []

abbrev prepared : Dict
prepared =
    ("from_usrp", boolean false)
    ∷ ("from_file", text (codes "in.dat"))
    ∷ ("inspect_queue", boolean true)
    ∷ ("to_file", nothing)
    ∷ ("frame_syms", integer (pos 20400))
    ∷ ("access_code", text (codes "1ACFFC1D"))
    ∷ ("message_bits", integer (pos 20400))
    ∷ ("code_length", integer (pos 32))
    ∷ []

options-prepare : prepare true options ≡ ok prepared
unfolding prepare check_source check_sync check_sink derive fill_code set_length neither only_first
    is_true is_false is_nothing len lookup insert
options-prepare = refl

no_source :
    prepare true (("from_usrp", boolean false) ∷ ("from_file", nothing) ∷ []) ≡ err (system_exit 1)
unfolding prepare check_source neither is_true is_nothing lookup
no_source = refl

-- No number is read on this command line.
abbrev no_int : Text → Option ℤ
no_int _ = none

command : get_command_line_config no_int (("--inspect-queue", []) ∷ []) ≡ ok cmdline
unfolding take_option take_options stored find insert
command = refl

viterbi27-is_switch : is_switch "viterbi27" option_table ≡ true
unfolding is_switch
viterbi27-is_switch = refl

viterbi27_on : find "viterbi27" default_config ≡ some (boolean true)
unfolding find
viterbi27_on = refl

derandomise_always_on_example : lookup "derandomise" merged ≡ some (boolean true)
derandomise_always_on_example =
    derandomise_always_on any_float no_int reader (("--inspect-queue", []) ∷ []) cmdline merged
      command configured
