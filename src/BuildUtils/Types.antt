-- ===== src/BuildUtils/Types.antt =====
-- Which type codes the dictionaries of python/build_utils.py accept.
use gr_ccsds.Prelude.{
  ℕ, ◌≡◌, refl, ◌⊎◌, inl, inr, Bool, true, false, ◌||◌, List, [], ◌∷◌, Text, codes, Result, ok, err,
  index_error, key_error, ◌>>=◌, ◌==◌, Bool-cases, if◌then◌else◌, arith,
}
use gr_ccsds.BuildUtils.Substitute.{Names}
use gr_ccsds.BuildUtils.Codes.{
  i_code, o_code, tap_code, char_to_type, i_type, o_type, tap_type, is_complex, type_entries,
  standard_dict, standard_dict2, standard_impl_dict2,
}

-- The letters that stand for a type.
unfoldable pub is_letter : ℕ → Bool
is_letter c = (c == b's') || (c == b'i') || (c == b'f') || (c == b'c') || (c == b'b')

-- The letters of a code that count: the first for the input, the second and the third for the output
-- and the taps, for which the first stands where they are missing.
abbrev pub letters : Text → List ℕ
letters [] = []
letters (a ∷ []) = a ∷ a ∷ a ∷ []
letters (a ∷ b ∷ []) = a ∷ b ∷ a ∷ []
letters (a ∷ b ∷ c ∷ s) = a ∷ b ∷ c ∷ []

abbrev pub all_letters : List ℕ → Bool
all_letters [] = true
all_letters (c ∷ s) = elim (is_letter c) [ true ↦ all_letters s | false ↦ false ]

-- What the entries on types are for a code.
abbrev pub TypesOf : Text → Result Names → Type 0
TypesOf [] r = r ≡ err index_error
TypesOf (a ∷ s) r =
    ((all_letters (letters (a ∷ s)) ≡ false) × (r ≡ err key_error))
    ⊎ ((all_letters (letters (a ∷ s)) ≡ true) × (d : Names) × (r ≡ ok d))

char_to_type_lem :
    (c : ℕ)
    → ((is_letter c ≡ false) × (char_to_type c ≡ err key_error))
      ⊎ ((is_letter c ≡ true) × (t : Text) × (char_to_type c ≡ ok t))
unfolding char_to_type is_letter
char_to_type_lem c = elim (Bool-cases (c == b's')) [
  | inl e ↦ inr (ground arith, codes "short", ground arith)
  | inr e_s ↦ elim (Bool-cases (c == b'i')) [
    | inl e ↦ inr (ground arith, codes "int", ground arith)
    | inr e_i ↦ elim (Bool-cases (c == b'f')) [
      | inl e ↦ inr (ground arith, codes "float", ground arith)
      | inr e_f ↦ elim (Bool-cases (c == b'c')) [
        | inl e ↦ inr (ground arith, codes "gr_complex", ground arith)
        | inr e_c ↦ elim (Bool-cases (c == b'b')) [
          | inl e ↦ inr (ground arith, codes "unsigned char", ground arith)
          | inr e_b ↦ inl (ground arith, ground arith)
        ]
      ]
    ]
  ]
]

abbrev entries_of : ℕ → ℕ → Text → Text → Text → Names
entries_of a b i o t =
    (codes "TYPE", i)
    ∷ (codes "I_TYPE", i)
    ∷ (codes "O_TYPE", o)
    ∷ (codes "TAP_TYPE", t)
    ∷ (codes "IS_COMPLEX", if (a == b'c') || (b == b'c') then codes "1" else codes "0")
    ∷ []

type_entries_total : (code3 : Text) → TypesOf code3 (type_entries code3)
unfolding type_entries i_type o_type tap_type is_complex i_code o_code tap_code
type_entries_total [] = refl
type_entries_total (a ∷ []) = elim (char_to_type_lem a) [
  | inl (bad, e) ↦ inl (ground arith, rw e refl)
  | inr (good, t, e) ↦ inr (ground arith, entries_of a a t t t, rw e refl)
]
type_entries_total (a ∷ b ∷ []) = elim (char_to_type_lem a) [
  | inl (bad, e) ↦ inl (ground arith, rw e refl)
  | inr (good, t, e) ↦ elim (char_to_type_lem b) [
    | inl (bad, f) ↦ inl (ground arith, rw (e, f) refl)
    | inr (good', t', f) ↦ inr (ground arith, entries_of a b t t' t, rw (e, f) refl)
  ]
]
type_entries_total (a ∷ b ∷ c ∷ s) = elim (char_to_type_lem a) [
  | inl (bad, e) ↦ inl (ground arith, rw e refl)
  | inr (good, t, e) ↦ elim (char_to_type_lem b) [
    | inl (bad, f) ↦ inl (ground arith, rw (e, f) refl)
    | inr (good', t', f) ↦ elim (char_to_type_lem c) [
      | inl (bad, g) ↦ inl (ground arith, rw (e, f, g) refl)
      | inr (good'', t'', g) ↦ inr (ground arith, entries_of a b t t' t'', rw (e, f, g) refl)
    ]
  ]
]

TypesOf-then :
    (code3 : Text) (r : Result Names) (f : Names → Names)
    → TypesOf code3 r
    → TypesOf code3 (r >>= λ d. ok (f d))
TypesOf-then [] r f h = rw h refl
TypesOf-then (a ∷ s) r f (inl (bad, e)) = inl (bad, rw e refl)
TypesOf-then (a ∷ s) r f (inr (good, d, e)) = inr (good, f d, rw e refl)

-- All three dictionaries are made for exactly the codes whose letters that count each stand for a type;
-- for any other code they end in KeyError, and for the empty one in IndexError, whatever the names.
pub standard_dicts_total :
    (name code3 pkg : Text)
    → TypesOf code3 (standard_dict name code3 pkg)
      × TypesOf code3 (standard_dict2 name code3 pkg)
      × TypesOf code3 (standard_impl_dict2 name code3 pkg)
unfolding standard_dict standard_dict2 standard_impl_dict2
standard_dicts_total name code3 pkg = (
  TypesOf-then code3 (type_entries code3) _ (type_entries_total code3),
  TypesOf-then code3 (type_entries code3) _ (type_entries_total code3),
  TypesOf-then code3 (type_entries code3) _ (type_entries_total code3),
)
