-- ===== src/BuildUtils/Output.antt =====
-- The files that python/build_utils.py writes, and its log of their names. The files in the directory are
-- an association list from names to texts.
use gr_ccsds.Prelude.{
  ℕ, Option, none, some, Bool, true, false, ◌&&◌, ◌||◌, List, [], ◌∷◌, ◌++◌, Text, codes, text_eq,
  Result, ok, err, value_error, leb, ltb, ◌==◌, if◌then◌else◌,
}
use gr_ccsds.BuildUtils.Substitute.{Names, value_of, do_substitution}
use gr_ccsds.BuildUtils.Codes.{upper}

-- What is behind the last slash.
unfoldable pub basename : Text → Text
basename [] = []
basename (c ∷ s) =
    let rest = basename s in if has_slash s then rest else if c == b'/' then s else c ∷ s
  where
    has_slash : Text → Bool
    has_slash [] = false
    has_slash (c ∷ s) = (c == b'/') || has_slash s

-- Without the dots at the front, which begin no extension.
unfoldable pub drop_dots : Text → Text
drop_dots [] = []
drop_dots (c ∷ s) = let rest = drop_dots s in if c == b'.' then rest else c ∷ s

-- What is behind the last dot.
unfoldable pub behind_dot : Text → Option Text
behind_dot [] = none
behind_dot (c ∷ s) = elim (behind_dot s) [
  | some e ↦ some e
  | none ↦ if c == b'.' then some s else none
]

abbrev or_empty : Option Text → Text
or_empty none = []
or_empty (some e) = e

-- os.path.splitext(name)[1][1:]
unfoldable pub extension_of : Text → Text
extension_of name = or_empty (behind_dot (drop_dots (basename name)))

-- name_dict
abbrev pub NameDict : Type 0
NameDict = List (Text × List Text)

-- name_dict.setdefault(ext, [])
unfoldable pub logged : NameDict → Text → List Text
logged [] ext = []
logged ((e, ns) ∷ d) ext = let rest = logged d ext in if text_eq e ext then ns else rest

-- The list under `ext` becomes `ns`.
unfoldable pub put_logged : NameDict → Text → List Text → NameDict
put_logged [] ext ns = (ext, ns) ∷ []
put_logged ((e, old) ∷ d) ext ns =
    let rest = put_logged d ext ns in if text_eq e ext then (e, ns) ∷ d else (e, old) ∷ rest

abbrev pub log_output_name : Text → NameDict → NameDict
log_output_name name d =
    put_logged d (extension_of name) (logged d (extension_of name) ++ name ∷ [])

-- s <= t, on texts
unfoldable pub text_leb : Text → Text → Bool
text_leb [] t = true
text_leb (c ∷ s) [] = false
text_leb (c ∷ s) (d ∷ t) = ltb c d || ((c == d) && text_leb s t)

unfoldable pub insert_name : Text → List Text → List Text
insert_name n [] = n ∷ []
insert_name n (m ∷ ms) =
    let rest = insert_name n ms in if text_leb n m then n ∷ m ∷ ms else m ∷ rest

-- files.sort()
unfoldable pub sort_names : List Text → List Text
sort_names [] = []
sort_names (n ∷ ns) = insert_name n (sort_names ns)

abbrev pub newline : Text
newline = 10 ∷ []

abbrev pub write_each : (Text → Text) → List Text → Text
write_each line [] = []
write_each line (n ∷ ns) = line n ++ write_each line ns

-- output_subfrag(f, ext): what it writes, and the log with the list that it sorts
unfoldable pub output_subfrag : Text → NameDict → Text × NameDict
output_subfrag ext d =
    let files = sort_names (logged d ext) in
    (
      codes "GENERATED_"
          ++ upper ext
          ++ codes " ="
          ++ write_each (λ file. codes " \\" ++ newline ++ 9 ∷ file) files
          ++ newline
          ++ newline,
      put_logged d ext files,
    )

abbrev pub Files : Type 0
Files = List (Text × Text)

-- open(name, 'w') and what is written to it
unfoldable pub put_file : Files → Text → Text → Files
put_file [] name s = (name, s) ∷ []
put_file ((m, t) ∷ fs) name s =
    let rest = put_file fs name s in if text_eq m name then (m, s) ∷ fs else (m, t) ∷ rest

pub record Build : Type 0 where
  pub name_dict : NameDict
  pub files : Files

-- output_makefile_fragment(), with the path of Makefile.gen
unfoldable pub output_makefile_fragment : Bool → Text → Build → Build
output_makefile_fragment do_makefile path b =
    if do_makefile
    then (let (h, d1) = output_subfrag (codes "h") b.name_dict in
        let (i, d2) = output_subfrag (codes "i") d1 in
        let (cc_files, d3) = output_subfrag (codes "cc") d2 in
        record {
          name_dict = d3;
          files = put_file b.files path (
              codes "#"
              ++ newline
              ++ codes "# This file is machine generated.  All edits will be overwritten"
              ++ newline
              ++ codes "#"
              ++ newline
              ++ h
              ++ i
              ++ cc_files);
        })
    else b

-- file[0:-1]
unfoldable pub but_last : Text → Text
but_last [] = []
but_last (c ∷ []) = []
but_last (c ∷ d ∷ s) = c ∷ but_last (d ∷ s)

abbrev pub include_line : Text → Text
include_line file = codes "#include <" ++ but_last file ++ codes "h>" ++ newline

abbrev pub swig_line : Text → Text
swig_line file = codes "%include <" ++ file ++ codes ">" ++ newline

-- output_ifile_include(dirname)
unfoldable pub output_ifile_include : Bool → Text → Build → Build
output_ifile_include do_sources dirname b =
    let files = sort_names (logged b.name_dict (codes "i")) in
    if do_sources
    then record {
      name_dict = put_logged b.name_dict (codes "i") files;
      files = put_file b.files (dirname ++ codes "_generated.i") (
          codes "//"
          ++ newline
          ++ codes "// This file is machine generated.  All edits will be overwritten"
          ++ newline
          ++ codes "//"
          ++ newline
          ++ codes "%{"
          ++ newline
          ++ write_each include_line files
          ++ codes "%}"
          ++ newline
          ++ newline
          ++ write_each swig_line files);
    }
    else b

-- output_glue(dirname)
abbrev pub output_glue : Bool → Bool → Text → Text → Build → Build
output_glue do_makefile do_sources path dirname b =
    output_ifile_include do_sources dirname (output_makefile_fragment do_makefile path b)

-- open_and_log_name(name, dir), for writing
abbrev pub open_and_log_name : Bool → Text → Build → Build
open_and_log_name do_sources name b = record {
  name_dict = log_output_name name b.name_dict;
  files = if do_sources then put_file b.files name [] else b.files;
}

-- [a-z]
abbrev pub is_lower : ℕ → Bool
is_lower c = leb 97 c && leb c 122

-- The rest of `([a-z]+)\.t$` behind the letters that were read.
unfoldable pub closed_extension : Text → Option Text
closed_extension [] = none
closed_extension (c ∷ s) =
    let rest = closed_extension s in
    if is_lower c
    then elim rest [ some e ↦ some (c ∷ e) | none ↦ if ends s then some (c ∷ []) else none ]
    else none
  where
    ends : Text → Bool
    ends s = text_eq s (codes ".t") || text_eq s (codes ".t" ++ 10 ∷ [])

-- extract_extension(template_name): the first match of `\.([a-z]+)\.t$`
unfoldable pub extract_extension : Text → Result Text
extract_extension [] = err value_error
extract_extension (c ∷ s) =
    let rest = extract_extension s in
    if c == b'.' then elim (closed_extension s) [ some e ↦ ok e | none ↦ rest ] else rest

-- expand_template(d, template_filename, extra), with what the source directory has under a name: the
-- state after it, and the exception that it may end in.
unfoldable pub expand_template :
    Bool → (Text → Result Text) → Names → Text → Text → Build → Build × Result (Unit {0})
expand_template do_sources open_src d template_filename extra b =
    elim (extract_extension template_filename) [
      | err e ↦ (b, err e)
      | ok output_extension ↦ elim (open_src template_filename) [
        | err e ↦ (b, err e)
        | ok template ↦ elim (value_of d (codes "NAME")) [
          | err e ↦ (b, err e)
          | ok name ↦
              let output_name = name ++ extra ++ codes "." ++ output_extension in
              let after = open_and_log_name do_sources output_name b in
              if do_sources
              then elim (do_substitution d template) [
                | err e ↦ (after, err e)
                | ok out ↦ (record after { files = put_file after.files output_name out }, ok tt)
              ]
              else (after, ok tt)
        ]
      ]
    ]
