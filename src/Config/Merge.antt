-- ===== src/Config/Merge.antt =====
-- `getDefaultConfig`, and the merging of the three sources of options at the start of `main`, in
-- python/bpsk_rx.py. The dictionary of the command line is what OptionParser has stored, and so is
-- the options object before the merging.
use gr_ccsds.Prelude.{
  Option, none, some, Bool, true, false, [], ◌∷◌, Text, String, codes, Result, ok, ◌>>=◌,
}
use gr_ccsds.Prelude.Int.{pos}
use gr_ccsds.Config.Values.{Value, nothing, boolean, integer, real, text}
use gr_ccsds.Config.Dict.{Dict, lookup, insert}
use gr_ccsds.Config.File.{File, get_file_config}

abbrev pub default_config : Dict
default_config =
    ("config_filename", text (codes "bpsk_rx.conf"))
    ∷ ("from_usrp", boolean false)
    ∷ ("from_file", nothing)
    ∷ ("frame_sync", boolean true)
    ∷ ("viterbi27", boolean true)
    ∷ ("reed_solomon", boolean true)
    ∷ ("derandomise", boolean true)
    ∷ ("frame_check", boolean true)
    ∷ ("sync", text (codes "Costas"))
    ∷ ("verbose", boolean false)
    ∷ ("inspect_queue", boolean false)
    ∷ ("to_file", nothing)
    ∷ ("frame_syms", integer (pos 20400))
    ∷ ("asm_syms", integer (pos 64))
    ∷ ("centre_freq", real (codes "2.235e9"))
    ∷ ("usrp_gain", integer (pos 1))
    ∷ ("sym_rate", real (codes "2e6"))
    ∷ ("repeat_file", boolean false)
    ∷ ("sps", integer (pos 2))
    ∷ ("file_path", text (codes "/home/ngs1/demod_out"))
    ∷ ("access_code", text (codes "1ACFFC1D"))
    ∷ ("sync_threshold", integer (pos 5))
    ∷ []

-- The value that one round of the loop gives a key: command line, then config file, then default.
unfoldable pub choose : Dict → Dict → String → Value → Value
choose cmdline configfile key value = elim (lookup key cmdline) [
  | some v ↦ v
  | none ↦ elim (lookup key configfile) [ some v ↦ v | none ↦ value ]
]

-- The loop over `default.items()`.
unfoldable pub merge : Dict → Dict → Dict → Dict → Dict
merge [] cmdline configfile options = options
merge ((key, value) ∷ rest) cmdline configfile options =
    merge rest cmdline configfile (insert key (choose cmdline configfile key value) options)

-- `getattr(options, "config_filename")`, or the default if the command line does not set it.
unfoldable pub config_filename : Dict → Value
config_filename options = elim (lookup "config_filename" options) [
  | some v ↦ v
  | none ↦ text (codes "bpsk_rx.conf")
]

-- Files are looked up by `read`.
unfoldable pub configure : (Text → Bool) → (Value → Option File) → Dict → Result Dict
configure is_float read cmdline = do
  configfile ← get_file_config is_float (read (config_filename cmdline))
  ok (merge default_config cmdline configfile cmdline)
