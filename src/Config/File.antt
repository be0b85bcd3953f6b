-- ===== src/Config/File.antt =====
-- `getFileConfig` of python/bpsk_rx.py. ConfigParser has read the file into sections; the names of
-- options stand there in lower case, as its `optionxform` leaves them, and an option may stand
-- without a value (`allow_no_value`).
use gr_ccsds.Prelude.{
  Option, none, some, Bool, false, List, [], ◌∷◌, Text, String, ◌=s=◌, if◌then◌else◌, Result, ok,
  err, ◌>>=◌, Exception, value_error, type_error, attribute_error,
}
use gr_ccsds.Config.Values.{
  Value, nothing, boolean, integer, real, text, truthy, parse_int, parse_boolean,
}
use gr_ccsds.Config.Dict.{Dict, lookup, insert}

abbrev pub Section : Type 0
Section = List (String × Option Text)

abbrev pub File : Type 0
File = List (String × Section)

-- The last item under a key, as a later one replaces an earlier one.
unfoldable pub find {ℓ} : {A : Type ℓ} → String → List (String × A) → Option A
find k [] = none
find k ((j, a) ∷ l) = elim (find k l) [ some b ↦ some b | none ↦ if j =s= k then some a else none ]

-- What a call of `config` does: it raises a ConfigParser.Error, which every caller passes over, or
-- another exception, or it returns a value.
pub data Got : Type 0 where
  missing : Got
  raised : Exception → Got
  got : Value → Got

-- config.get, getboolean, getint, getfloat
pub data Kind : Type 0 where
  plain yes_or_no whole decimal : Kind

-- Which texts `float` accepts is the argument `is_float`.
module _ (is_float : Text → Bool) where
  unfoldable pub convert : Kind → Option Text → Got
  unfolding parse_int parse_boolean
  convert plain none = got nothing
  convert plain (some s) = got (text s)
  convert yes_or_no none = raised attribute_error
  convert yes_or_no (some s) = elim (parse_boolean s) [
    | none ↦ raised value_error
    | some b ↦ got (boolean b)
  ]
  convert whole none = raised type_error
  convert whole (some s) = elim (parse_int s) [
    | none ↦ raised value_error
    | some n ↦ got (integer n)
  ]
  convert decimal none = raised type_error
  convert decimal (some s) = if is_float s then got (real s) else raised value_error

  -- An option is looked for in its section, which must be there, and then in the section DEFAULT.
  unfoldable pub fetch : File → Kind → String → String → Got
  unfolding find
  fetch file kind section option =
      let default : Option (Option Text) = elim (find "DEFAULT" file) [
        | none ↦ none
        | some s ↦ find option s
      ] in
      elim (find section file) [
        | none ↦ missing
        | some s ↦ elim (find option s) [
          | some v ↦ convert kind v
          | none ↦ elim default [ none ↦ missing | some v ↦ convert kind v ]
        ]
      ]

-- One `try` block: the key that it sets, the call, and its two arguments.
pub record Entry : Type 0 where
  pub key : String
  pub kind : Kind
  pub section : String
  pub option : String

abbrev entry : String → Kind → String → String → Entry
entry k c s o = record { key = k; kind = c; section = s; option = o }

abbrev pub general_entries : List Entry
general_entries =
    entry "from_usrp" yes_or_no "General" "from-usrp"
    ∷ entry "from_file" plain "General" "from-file"
    ∷ entry "frame_sync" yes_or_no "General" "frame-sync"
    ∷ entry "viterbi27" yes_or_no "General" "viterbi27"
    ∷ entry "reed_solomon" yes_or_no "General" "reed-solomon"
    ∷ entry "derandomize" yes_or_no "General" "pseudo-derandomize"
    ∷ entry "frame_check" yes_or_no "General" "frame-check"
    ∷ entry "verbose" yes_or_no "General" "verbose"
    ∷ entry "inspect_queue" yes_or_no "General" "inspect-queue"
    ∷ entry "to_file" plain "General" "to-file"
    ∷ entry "sync" plain "General" "sync"
    ∷ entry "frame_syms" whole "General" "frame-syms"
    ∷ entry "asm_syms" whole "General" "asm-syms"
    ∷ []

abbrev pub usrp_entries : List Entry
usrp_entries =
    entry "centre_freq" decimal "USRP" "freq"
    ∷ entry "usrp_gain" decimal "USRP" "gain"
    ∷ entry "sym_rate" decimal "USRP" "rate"
    ∷ []

abbrev pub file_entries : List Entry
file_entries = entry "repeat_file" yes_or_no "File" "repeat" ∷ []

abbrev pub demod_entries : List Entry
demod_entries = entry "sps" whole "Demod" "sps" ∷ entry "file_path" plain "Demod" "file-path" ∷ []

abbrev pub frame_sync_entries : List Entry
frame_sync_entries =
    entry "access_code" plain "FrameSync" "asm"
    ∷ entry "sync_threshold" whole "FrameSync" "threshold"
    ∷ []

-- "k" in config_values and config_values["k"]
unfoldable pub is_set : String → Dict → Bool
is_set k d = elim (lookup k d) [ none ↦ false | some v ↦ truthy v ]

-- config_values[key] = the value, unless a ConfigParser.Error was raised
unfoldable pub store : String → Got → Dict → Result Dict
store k missing d = ok d
store k (raised e) d = err e
store k (got v) d = ok (insert k v d)

module _ (is_float : Text → Bool) where
  unfoldable pub read_all : List Entry → File → Dict → Result Dict
  read_all [] file d = ok d
  read_all (e ∷ es) file d = do
    d' ← store e.key (fetch is_float file e.kind e.section e.option) d
    read_all es file d'

  unfoldable pub read_if : Bool → List Entry → File → Dict → Result Dict
  read_if b es file d = if b then read_all es file d else ok d

  -- `none` is a file that is not there or cannot be read.
  unfoldable pub get_file_config : Option File → Result Dict
  get_file_config none = ok []
  get_file_config (some file) = do
    general ← read_all general_entries file []
    usrp ← read_if (is_set "from_usrp" general) usrp_entries file general
    source ← read_if (is_set "from_file" usrp) file_entries file usrp
    demod ← read_all demod_entries file source
    read_if (is_set "frame_sync" demod) frame_sync_entries file demod
