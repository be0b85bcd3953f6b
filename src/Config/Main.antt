-- ===== src/Config/Main.antt =====
-- The second half of `main` of python/bpsk_rx.py: the validation of the merged options, and those that
-- are derived from them.
use gr_ccsds.Prelude.{
  ℕ, ◌*◌, Bool, false, codes, length, if◌then◌else◌, Result, ok, err, type_error, system_exit,
  keyboard_interrupt, ◌>>=◌, ◌>>◌, refuse_if, ◌&&◌, not,
}
use gr_ccsds.Prelude.Int.{pos}
use gr_ccsds.Config.Values.{Value, integer, text, is_true, is_false, is_nothing}
use gr_ccsds.Config.Dict.{Dict, insert, attr}

-- a is not True and b is None
unfoldable pub neither : Result Value → Result Value → Result Bool
neither a b = do v ← a; if is_true v then ok false else do w ← b; ok (is_nothing w)

-- a is True and b is False
unfoldable pub only_first : Result Value → Result Value → Result Bool
only_first a b = do v ← a; if is_true v then (do w ← b; ok (is_false w)) else ok false

-- len(value)
unfoldable pub len : Value → Result ℕ
len (text s) = ok (length s)
len _ = err type_error

-- The three tests on the options.
unfoldable pub check_source : Dict → Result (Unit {0})
check_source o = do
  no_source ← neither (attr "from_usrp" o) (attr "from_file" o)
  refuse_if no_source (system_exit 1)

-- `enter` is the answer to the question that is asked here: Enter, or Ctrl-C.
unfoldable pub check_sync : Bool → Dict → Result (Unit {0})
check_sync enter o = do
  unsynced ← only_first (attr "from_usrp" o) (attr "frame_sync" o)
  refuse_if (unsynced && not enter) keyboard_interrupt

unfoldable pub check_sink : Dict → Result (Unit {0})
check_sink o = do
  no_sink ← neither (attr "inspect_queue" o) (attr "to_file" o)
  refuse_if no_sink (system_exit 1)

-- options.access_code, with the default marker where it is None
abbrev pub with_code : Value → Dict → Dict
with_code given o = if is_nothing given then insert "access_code" (text (codes "1ACFFC1D")) o else o

unfoldable pub fill_code : Dict → Result Dict
fill_code o = do given ← attr "access_code" o; ok (with_code given o)

-- options.code_length
unfoldable pub set_length : Dict → Result Dict
set_length o = do
  access_code ← attr "access_code" o
  n ← len access_code
  ok (insert "code_length" (integer (pos (n * 4))) o)

-- The options that follow from others.
unfoldable pub derive : Dict → Result Dict
derive o = do
  frame_syms ← attr "frame_syms" o
  o' ← fill_code (insert "message_bits" frame_syms o)
  set_length o'

unfoldable pub prepare : Bool → Dict → Result Dict
prepare enter o = do check_source o; check_sync enter o; check_sink o; derive o
