-- ===== src/BuildUtils/Substitute.antt =====
-- `do_substitution` of python/build_utils.py: each name between two @ is replaced by its value.
use gr_ccsds.Prelude.{
  ℕ, zero, suc, Option, none, some, Bool, ◌&&◌, ◌||◌, List, [], ◌∷◌, ◌++◌, Text, text_eq, Result,
  ok, err, key_error, ◌>>=◌, length, leb, ◌==◌, if◌then◌else◌,
}

-- A dictionary with texts for its keys and values.
abbrev pub Names : Type 0
Names = List (Text × Text)

-- d[key]
unfoldable pub value_of : Names → Text → Result Text
value_of [] key = err key_error
value_of ((k, v) ∷ d) key = let rest = value_of d key in if text_eq k key then ok v else rest

-- [a-zA-Z0-9_]
abbrev pub is_word : ℕ → Bool
is_word c = (leb 97 c && leb c 122) || (leb 65 c && leb c 90) || (leb 48 c && leb c 57) || (c == 95)

-- The longest run of such characters at the front, and what is behind it.
unfoldable pub split_word : Text → Text × Text
split_word [] = ([], [])
split_word (c ∷ s) = let (w, r) = split_word s in if is_word c then (c ∷ w, r) else ([], c ∷ s)

-- Behind an @: the name up to the next one, and the rest behind that, if the pattern matches.
unfoldable pub closed_name : Text × Text → Option (Text × Text)
closed_name ([], r) = none
closed_name (c ∷ w, []) = none
closed_name (c ∷ w, d ∷ r) = if d == b'@' then some (c ∷ w, r) else none

-- The match of `@([a-zA-Z0-9_]+)@` at the front of a text: the name, and the text behind it.
unfoldable pub match_name : ℕ → Text → Option (Text × Text)
match_name c s = if c == b'@' then closed_name (split_word s) else none

-- re.sub(pattern, repl, text); as many rounds as the text has characters are enough.
unfoldable pub substitute : ℕ → Names → Text → Result Text
substitute zero d s = ok []
substitute (suc n) d [] = ok []
substitute (suc n) d (c ∷ s) = elim (match_name c s) [
  | none ↦ (do t ← substitute n d s; ok (c ∷ t))
  | some (key, r) ↦ (do v ← value_of d key; t ← substitute n d r; ok (v ++ t))
]

unfoldable pub do_substitution : Names → Text → Result Text
do_substitution d inp = substitute (length inp) d inp
