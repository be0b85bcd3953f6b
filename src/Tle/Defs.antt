-- ===== src/Tle/Defs.antt =====
-- `getTleFromFile` of python/util.py, on the lines of the file.
use gr_ccsds.Prelude.{
  Bool, false, ◌||◌, List, [], ◌∷◌, ◌++◌, Text, text_eq, lower, rstrip, Result, ok, err, key_error,
  length, leb, if◌then◌else◌,
}

-- s.rstrip().lower()
unfoldable pub clean : Text → Text
clean s = lower (rstrip s)

-- The loop over the lines: `flag` is whether the name was found, and `out` holds the lines since then.
unfoldable pub scan : Text → Bool → List Text → List Text → Result (List Text)
scan name flag out [] = err key_error
scan name flag out (line ∷ lines) =
    let flag' = text_eq (clean line) name || flag in
    let out' = if flag' then out ++ rstrip line ∷ [] else out in
    let rest = scan name flag' out' lines in
    if flag' then (if leb 3 (length out') then ok out' else rest) else rest

unfoldable pub get_tle_from_file : List Text → Text → Result (List Text)
get_tle_from_file lines satname = scan (clean satname) false [] lines
