-- ===== src/BuildUtils/Listing.antt =====
-- Which names stand in the fragments that python/build_utils.py writes.
use mathlib.Core.List.{Perm}
use mathlib.Core.List.Perm
use gr_ccsds.Prelude.{
  ◌≡◌, refl, sym, ap, subst, ◌∙◌, inl, inr, Bool, true, false, Bool-cases, List, [], ◌∷◌, ◌++◌,
  append-nil, append_assoc, Text, text_eq, codes, if◌then◌else◌, arith,
}
use gr_ccsds.Pdu.Accepts.{text_eq_iff}
use gr_ccsds.BuildUtils.Codes.{upper}
use gr_ccsds.BuildUtils.Output.{
  extension_of, NameDict, logged, put_logged, log_output_name, text_leb, insert_name, sort_names,
  write_each, newline, output_subfrag,
}

logged-put :
    (d : NameDict) (e f : Text) (ns : List Text)
    → logged (put_logged d e ns) f ≡ (if text_eq e f then ns else logged d f)
unfolding logged put_logged
logged-put [] e f ns = refl
logged-put ((g, old) ∷ d) e f ns = elim (Bool-cases (text_eq g e)) [
  | inl same ↦
      let g_is = (text_eq_iff g e).0 same in
      elim (Bool-cases (text_eq e f)) [
        | inl hit ↦ rw (same, hit, ap (λ x. text_eq x f) g_is ∙ hit) refl
        | inr miss ↦ rw (same, miss, ap (λ x. text_eq x f) g_is ∙ miss) refl
      ]
  | inr differs ↦ elim (Bool-cases (text_eq g f)) [
    | inl hit ↦ elim (Bool-cases (text_eq e f)) [
      | inl both ↦
          let g_is = (text_eq_iff g f).0 hit ∙ sym ((text_eq_iff e f).0 both) in
          absurd (differs_not (sym ((text_eq_iff g e).1 g_is) ∙ differs))
      | inr miss ↦ rw (differs, hit, miss) refl
    ]
    | inr miss ↦ rw (differs, miss) (logged-put d e f ns)
  ]
]
  where
    differs_not : true ≡ false → ⊥
    differs_not p = cc

text_leb-total : (s t : Text) → text_leb s t ≡ false → text_leb t s ≡ true
unfolding text_leb
text_leb-total [] t h = cc
text_leb-total (c ∷ s) [] h = refl
text_leb-total (c ∷ s) (d ∷ t) h = ground (arith, text_leb-total s t)

-- Each name stands at or before the next one.
abbrev pub IsOrdered : List Text → Type 0
IsOrdered [] = Unit
IsOrdered (n ∷ []) = Unit
IsOrdered (n ∷ m ∷ ms) = (text_leb n m ≡ true) × IsOrdered (m ∷ ms)

insert_name-Perm : (n : Text) (ms : List Text) → Perm (insert_name n ms) (n ∷ ms)
unfolding insert_name
insert_name-Perm n [] = Perm.refl (n ∷ [])
insert_name-Perm n (m ∷ ms) =
    elim (text_leb n m)
      as (λ (b : Bool). Perm (if b then n ∷ m ∷ ms else m ∷ insert_name n ms) (n ∷ m ∷ ms)) [
        | true ↦ Perm.refl (n ∷ m ∷ ms)
        | false ↦ Perm.trans (Perm.cons m (insert_name-Perm n ms)) (Perm.swap n m ms)
      ]

sort_names-Perm : (ns : List Text) → Perm (sort_names ns) ns
unfolding sort_names
sort_names-Perm [] = Perm.refl []
sort_names-Perm (n ∷ ns) =
    Perm.trans (insert_name-Perm n (sort_names ns)) (Perm.cons n (sort_names-Perm ns))

insert_name-later :
    (n m : Text) (ms : List Text)
    → text_leb n m ≡ false
    → insert_name n (m ∷ ms) ≡ m ∷ insert_name n ms
unfolding insert_name
insert_name-later n m ms h = rw h refl

insert_name-IsOrdered : (n : Text) (ms : List Text) → IsOrdered ms → IsOrdered (insert_name n ms)
unfolding insert_name
insert_name-IsOrdered n [] h = tt
insert_name-IsOrdered n (m ∷ []) h = elim (Bool-cases (text_leb n m)) [
  | inl le ↦ rw le (le, tt)
  | inr more ↦ rw more (text_leb-total n m more, tt)
]
insert_name-IsOrdered n (m ∷ k ∷ ms) (first, h) = elim (Bool-cases (text_leb n m)) [
  | inl le ↦ rw le (le, (first, h))
  | inr more ↦ elim (Bool-cases (text_leb n k)) [
    | inl le ↦ rw (more, le) (text_leb-total n m more, (le, h))
    | inr more_still ↦
        let rest =
          subst IsOrdered (insert_name-later n k ms more_still)
            (insert_name-IsOrdered n (k ∷ ms) h) in
        rw (more, more_still) (first, rest)
  ]
]

sort_names-IsOrdered : (ns : List Text) → IsOrdered (sort_names ns)
unfolding sort_names
sort_names-IsOrdered [] = tt
sort_names-IsOrdered (n ∷ ns) = insert_name-IsOrdered n (sort_names ns) (sort_names-IsOrdered ns)

-- The names in turn, as they are logged.
abbrev pub log_names : List Text → NameDict → NameDict
log_names [] d = d
log_names (n ∷ ns) d = log_names ns (log_output_name n d)

-- The names that have an extension, in their order.
unfoldable pub with_extension : Text → List Text → List Text
with_extension ext [] = []
with_extension ext (n ∷ ns) =
    let rest = with_extension ext ns in if text_eq (extension_of n) ext then n ∷ rest else rest

logged-log_names :
    (ns : List Text) (d : NameDict) (ext : Text)
    → logged (log_names ns d) ext ≡ logged d ext ++ with_extension ext ns
unfolding with_extension
logged-log_names [] d ext = sym (append-nil (logged d ext))
logged-log_names (n ∷ ns) d ext =
    let e = extension_of n in
    let put = logged-put d e ext (logged d e ++ n ∷ []) in
    let rest = logged-log_names ns (log_output_name n d) ext in
    elim (Bool-cases (text_eq e ext)) [
      | inl hit ↦
          let e_is = (text_eq_iff e ext).0 hit in
          let stored : logged (log_output_name n d) ext ≡ logged d ext ++ n ∷ [] =
            put ∙ rw hit (ap (λ x. logged d x ++ n ∷ []) e_is) in
          rest
          ∙ ap (λ l. l ++ with_extension ext ns) stored
          ∙ append_assoc (logged d ext) (n ∷ []) (with_extension ext ns)
          ∙ rw hit refl
      | inr miss ↦
          let kept : logged (log_output_name n d) ext ≡ logged d ext = put ∙ rw miss refl in
          rest ∙ ap (λ l. l ++ with_extension ext ns) kept ∙ rw miss refl
    ]

-- Whatever names were logged, in whatever order: the fragment for an extension lists those of them that
-- have it, each as often as it was logged, in the order of their texts; and the log then has them in that
-- order.
pub output_subfrag-log_names :
    (ns : List Text) (ext : Text)
    → let (text, d) = output_subfrag ext (log_names ns []) in
      (ms : List Text) × Perm ms (with_extension ext ns)
      × IsOrdered ms
      × (text
          ≡ codes "GENERATED_"
            ++ upper ext
            ++ codes " ="
            ++ write_each (λ file. codes " \\" ++ newline ++ 9 ∷ file) ms
            ++ newline
            ++ newline)
      × (logged d ext ≡ ms)
unfolding output_subfrag logged
output_subfrag-log_names ns ext =
    let files = sort_names (logged (log_names ns []) ext) in
    (
      files,
      subst (λ l. Perm files l) (logged-log_names ns [] ext)
          (sort_names-Perm (logged (log_names ns []) ext)),
      sort_names-IsOrdered (logged (log_names ns []) ext),
      refl,
      logged-put (log_names ns []) ext ext files ∙ rw ((text_eq_iff ext ext).1 refl) refl,
    )
