-- ===== src/Tle/Laws.antt =====
-- What the lookup of two-line elements finds.
use gr_ccsds.Prelude.{
  ◌≡◌, refl, ◌∙◌, Bool, true, false, ◌||◌, List, [], ◌∷◌, ◌++◌, Text, text_eq, rstrip, Result, ok,
  err, key_error, length, leb, inl, inr, Bool-cases, if◌then◌else◌,
}
use gr_ccsds.Tle.Defs.{clean, scan, get_tle_from_file}

-- The lines from the first whose cleaned text is the name.
unfoldable pub from_name : Text → List Text → List Text
from_name name [] = []
from_name name (line ∷ lines) =
    let rest = from_name name lines in if text_eq (clean line) name then line ∷ lines else rest

-- Three lines, without the blanks at their ends, or KeyError where there are fewer.
unfoldable pub three_lines : List Text → Result (List Text)
three_lines (a ∷ b ∷ c ∷ s) = ok (rstrip a ∷ rstrip b ∷ rstrip c ∷ [])
three_lines _ = err key_error

abbrev add_line : Text → List Text → List Text → Text → Result (List Text)
add_line name out lines line =
    let out' = out ++ rstrip line ∷ [] in
    let rest = scan name true out' lines in if leb 3 (length out') then ok out' else rest

scan_on :
    (name : Text) (flag : Bool) (out : List Text) (line : Text) (lines : List Text)
    → (text_eq (clean line) name || flag) ≡ true
    → scan name flag out (line ∷ lines) ≡ add_line name out lines line
unfolding scan
scan_on name flag out line lines e = rw e refl

scan_off :
    (name line : Text) (lines : List Text)
    → text_eq (clean line) name ≡ false
    → scan name false [] (line ∷ lines) ≡ scan name false [] lines
unfolding scan
scan_off name line lines e = rw e refl

or_true : (b : Bool) → (b || true) ≡ true
or_true false = refl
or_true true = refl

scan_last : (name : Text) (out : List Text) → scan name true out [] ≡ err key_error
unfolding scan
scan_last name out = refl

scan_going :
    (name : Text) (a : Text) (lines : List Text)
    → scan name true (rstrip a ∷ []) lines ≡ three_lines (a ∷ lines)
unfolding three_lines
scan_going name a [] = scan_last name _
scan_going name a (b ∷ []) = scan_on name true (rstrip a ∷ []) b [] (or_true _) ∙ scan_last name _
scan_going name a (b ∷ c ∷ lines) =
    scan_on name true (rstrip a ∷ []) b (c ∷ lines) (or_true _)
    ∙ scan_on name true (rstrip a ∷ rstrip b ∷ []) c lines (or_true _)

scan_search :
    (name : Text) (lines : List Text)
    → scan name false [] lines ≡ three_lines (from_name name lines)
unfolding from_name scan three_lines
scan_search name [] = refl
scan_search name (line ∷ lines) = elim (Bool-cases (text_eq (clean line) name)) [
  | inl e ↦ scan_on name false [] line lines (rw e refl) ∙ scan_going name line lines ∙ rw e refl
  | inr e ↦ scan_off name line lines e ∙ scan_search name lines ∙ rw e refl
]

-- The lookup gives the line with the name of the satellite, whatever its case and the blanks behind it,
-- and the two lines behind it, all without the blanks at their ends; it ends in KeyError if no line has
-- the name, or fewer than two stand behind the first that has.
pub get_tle_from_file_lem :
    (lines : List Text) (satname : Text)
    → get_tle_from_file lines satname ≡ three_lines (from_name (clean satname) lines)
unfolding get_tle_from_file
get_tle_from_file_lem lines satname = scan_search (clean satname) lines
