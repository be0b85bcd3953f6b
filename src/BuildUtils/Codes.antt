-- ===== src/BuildUtils/Codes.antt =====
-- The type codes of python/build_utils_codes.py, and the dictionaries that python/build_utils.py makes of
-- them for its templates.
use mathlib.Core.List.{flat_map}
use gr_ccsds.Prelude.{
  ℕ, ◌-◌, ◌&&◌, ◌||◌, [], ◌∷◌, ◌++◌, map, Text, codes, starts_with, Result, ok, err, index_error,
  key_error, ◌>>=◌, length, take, drop, leb, rstrip_by, Bool, ◌==◌, if◌then◌else◌,
}
use gr_ccsds.BuildUtils.Substitute.{Names}

-- code3[0]
unfoldable pub i_code : Text → Result ℕ
i_code [] = err index_error
i_code (a ∷ s) = ok a

-- code3[1], or code3[0] where there is none
unfoldable pub o_code : Text → Result ℕ
o_code [] = err index_error
o_code (a ∷ []) = ok a
o_code (a ∷ b ∷ s) = ok b

-- code3[2], or code3[0] where there is none
unfoldable pub tap_code : Text → Result ℕ
tap_code [] = err index_error
tap_code (a ∷ []) = ok a
tap_code (a ∷ b ∷ []) = ok a
tap_code (a ∷ b ∷ c ∷ s) = ok c

-- char_to_type[c]
unfoldable pub char_to_type : ℕ → Result Text
char_to_type c =
    if c == b's'
    then ok (codes "short")
    else if c == b'i'
    then ok (codes "int")
    else if c == b'f'
    then ok (codes "float")
    else if c == b'c'
    then ok (codes "gr_complex")
    else if c == b'b'
    then ok (codes "unsigned char")
    else err key_error

unfoldable pub i_type : Text → Result Text
i_type code3 = do c ← i_code code3; char_to_type c

unfoldable pub o_type : Text → Result Text
o_type code3 = do c ← o_code code3; char_to_type c

unfoldable pub tap_type : Text → Result Text
tap_type code3 = do c ← tap_code code3; char_to_type c

-- is_complex(code3): the second test is not made where the first succeeds
unfoldable pub is_complex : Text → Result Text
is_complex code3 = do
  i ← i_code code3
  o ← o_code code3
  ok (if (i == b'c') || (o == b'c') then codes "1" else codes "0")

-- s.upper(), on ASCII
abbrev pub to_upper : ℕ → ℕ
to_upper c = if leb 97 c && leb c 122 then c - 32 else c

abbrev pub upper : Text → Text
upper = map to_upper

abbrev newline : Text
newline = 10 ∷ []

abbrev pub copyright : Text
copyright =
    flat_map (λ l. codes l ++ newline)
      ("/* -*- c++ -*- */" ∷ "/*" ∷ " * Copyright 2003,2004 Free Software Foundation, Inc." ∷ " *"
        ∷ " * This file is part of GNU Radio" ∷ " *"
        ∷ " * GNU Radio is free software; you can redistribute it and/or modify"
        ∷ " * it under the terms of the GNU General Public License as published by"
        ∷ " * the Free Software Foundation; either version 3, or (at your option)"
        ∷ " * any later version." ∷ " *"
        ∷ " * GNU Radio is distributed in the hope that it will be useful,"
        ∷ " * but WITHOUT ANY WARRANTY; without even the implied warranty of"
        ∷ " * MERCHANTABILITY or FITNESS FOR A PARTICULAR PURPOSE.  See the"
        ∷ " * GNU General Public License for more details." ∷ " *"
        ∷ " * You should have received a copy of the GNU General Public License"
        ∷ " * along with GNU Radio; see the file COPYING.  If not, write to"
        ∷ " * the Free Software Foundation, Inc., 51 Franklin Street,"
        ∷ " * Boston, MA 02110-1301, USA." ∷ " */" ∷ [])

abbrev pub warning : Text
warning = codes "WARNING: this file is machine generated. Edits will be overwritten"

-- re.sub('^' + package + '_', '', name), for a package whose name has no special characters
unfoldable pub base_name : Text → Text → Text
base_name pkg name =
    let prefix = pkg ++ codes "_" in
    if starts_with name prefix then drop (length prefix) name else name

-- 'INCLUDED_%s_%s_H' % (package.upper(), name.upper()), and the same with another ending
abbrev pub guard_name : Text → Text → Text → Text
guard_name pkg name ending = codes "INCLUDED_" ++ upper pkg ++ codes "_" ++ upper name ++ ending

-- The five entries on types that all dictionaries end with.
unfoldable pub type_entries : Text → Result Names
type_entries code3 = do
  i ← i_type code3
  o ← o_type code3
  t ← tap_type code3
  c ← is_complex code3
  ok (
      (codes "TYPE", i)
      ∷ (codes "I_TYPE", i)
      ∷ (codes "O_TYPE", o)
      ∷ (codes "TAP_TYPE", t)
      ∷ (codes "IS_COMPLEX", c)
      ∷ [])

unfoldable pub standard_dict : Text → Text → Text → Result Names
standard_dict name code3 pkg = do
  types ← type_entries code3
  ok (
      (codes "NAME", name)
      ∷ (codes "NAME_IMPL", name ++ codes "_impl")
      ∷ (codes "GUARD_NAME", guard_name pkg name (codes "_H"))
      ∷ (codes "GUARD_NAME_IMPL", guard_name pkg name (codes "_IMPL_H"))
      ∷ (codes "BASE_NAME", base_name pkg name)
      ∷ (codes "SPTR_NAME", name ++ codes "_sptr")
      ∷ (codes "WARNING", warning)
      ∷ (codes "COPYRIGHT", copyright)
      ∷ types)

unfoldable pub standard_dict2 : Text → Text → Text → Result Names
standard_dict2 name code3 pkg = do
  types ← type_entries code3
  ok (
      (codes "NAME", name)
      ∷ (codes "BASE_NAME", name)
      ∷ (codes "GUARD_NAME", guard_name pkg name (codes "_H"))
      ∷ (codes "WARNING", warning)
      ∷ (codes "COPYRIGHT", copyright)
      ∷ types)

-- c in "impl"
abbrev pub is_impl : ℕ → Bool
is_impl c = (c == b'i') || (c == b'm') || (c == b'p') || (c == b'l')

-- name.rstrip("impl").rstrip("_"), which takes single characters away
abbrev pub impl_base : Text → Text
impl_base name = rstrip_by (λ c. c == 95) (rstrip_by is_impl name)

unfoldable pub standard_impl_dict2 : Text → Text → Text → Result Names
standard_impl_dict2 name code3 pkg = do
  types ← type_entries code3
  ok (
      (codes "NAME", name)
      ∷ (codes "IMPL_NAME", name)
      ∷ (codes "BASE_NAME", impl_base name)
      ∷ (codes "GUARD_NAME", guard_name pkg name (codes "_H"))
      ∷ (codes "WARNING", warning)
      ∷ (codes "COPYRIGHT", copyright)
      ∷ (codes "FIR_TYPE", codes "fir_filter_" ++ code3)
      ∷ (codes "CFIR_TYPE", codes "fir_filter_" ++ take 2 code3 ++ codes "c")
      ∷ types)
