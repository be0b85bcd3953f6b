-- ===== src/Config/Values.antt =====
-- The values of options, and the conversions from text that ConfigParser makes.
use gr_ccsds.Prelude.{
  ℕ, ◌+◌, ◌-◌, ◌*◌, Option, none, some, Bool, true, false, ◌&&◌, ◌||◌, not, [], ◌∷◌, Text, String,
  codes, text_eq, lower, rstrip, rstrip_by, lstrip_by, is_space, leb, ◌==◌, if◌then◌else◌,
}
use gr_ccsds.Prelude.Int.{ℤ, pos, sub_ℕ}

-- A Python value. No float is computed with in this part of the program, so a float stands as the
-- literal that it is read from.
pub data Value : Type 0 where
  nothing : Value
  boolean : Bool → Value
  integer : ℤ → Value
  real : Text → Value
  text : Text → Value

-- The truth of a value in an `if`. (No float is tested.)
unfoldable pub truthy : Value → Bool
truthy nothing = false
truthy (boolean b) = b
truthy (integer n) = elim n [ pos m ↦ not (m == 0) | _ ↦ true ]
truthy (real s) = true
truthy (text s) = elim s [ [] ↦ false | _ ↦ true ]

-- v is True
unfoldable pub is_true : Value → Bool
is_true (boolean b) = b
is_true _ = false

-- v is False
unfoldable pub is_false : Value → Bool
is_false (boolean b) = not b
is_false _ = false

-- v is None
unfoldable pub is_nothing : Value → Bool
is_nothing nothing = true
is_nothing _ = false

-- The digits of a decimal numeral, behind the value `n` of those before them.
unfoldable pub digits : ℕ → Text → Option ℕ
digits n [] = some n
digits n (c ∷ s) =
    let rest = digits (n * 10 + (c - 48)) s in if leb 48 c && leb c 57 then rest else none

unfoldable pub numeral : Text → Option ℕ
unfolding digits
numeral [] = none
numeral (c ∷ s) = digits 0 (c ∷ s)

-- int(s): spaces around it, a sign, and digits
unfoldable pub signed : Text → Option ℤ
unfolding numeral
signed [] = none
signed (c ∷ s) =
    let minus : Option ℤ = elim (numeral s) [ none ↦ none | some n ↦ some (sub_ℕ 0 n) ] in
    let plus : Option ℤ = elim (numeral s) [ none ↦ none | some n ↦ some (pos n) ] in
    let plain : Option ℤ = elim (numeral (c ∷ s)) [ none ↦ none | some n ↦ some (pos n) ] in
    if c == b'-' then minus else if c == b'+' then plus else plain

unfoldable pub parse_int : Text → Option ℤ
unfolding signed lstrip_by rstrip_by
parse_int s = signed (lstrip_by is_space (rstrip s))

-- What ConfigParser takes for a Boolean, whatever the case of the letters.
unfoldable pub parse_boolean : Text → Option Bool
unfolding lower
parse_boolean s =
    let is : String → Bool = λ w. text_eq (lower s) (codes w) in
    if is "1" || is "yes" || is "true" || is "on"
    then some true
    else if is "0" || is "no" || is "false" || is "off"
    then some false
    else none
