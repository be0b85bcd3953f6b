-- ===== src/BuildUtils/Tests.antt =====
-- A template and a type code, and the theorems at them.
use gr_ccsds.Prelude.{◌≡◌, refl, [], ◌∷◌, List, codes, All, ok, err, key_error, arith}
use gr_ccsds.BuildUtils.Substitute.{
  Names, value_of, split_word, closed_name, match_name, substitute, do_substitution,
}
use gr_ccsds.BuildUtils.Template.{Piece, plain_text, name, IsPiece}
use gr_ccsds.Prelude.{◌++◌, Text, value_error, true, false}
use gr_ccsds.BuildUtils.Output.{
  extension_of, basename, drop_dots, behind_dot, logged, put_logged, text_leb, insert_name,
  sort_names, newline, Build, put_file, output_makefile_fragment, but_last, output_ifile_include,
  output_glue, open_and_log_name, closed_extension, extract_extension, expand_template,
}

abbrev names : Names
names = (codes "NAME", codes "fir") ∷ []

substitutes : do_substitution names (codes "a@b @NAME@.h") ≡ ok (codes "a@b fir.h")
unfolding do_substitution substitute match_name closed_name split_word value_of
substitutes = refl

misses : do_substitution names (codes "@TYPE@") ≡ err key_error
unfolding do_substitution substitute match_name closed_name split_word value_of
misses = refl

abbrev template : List Piece
template = plain_text (codes "a ") ∷ name (codes "NAME") ∷ plain_text (codes ".h") ∷ []

template-IsPiece : All IsPiece template
template-IsPiece = ground arith

extensions :
    (extension_of (codes "gen/fir.cc") ≡ codes "cc")
    × (extension_of (codes "a.d/.x") ≡ [])
    × (extract_extension (codes "FirXXX.h.t") ≡ ok (codes "h"))
    × (extract_extension (codes "FirXXX.t") ≡ err value_error)
unfolding extension_of basename drop_dots behind_dot extract_extension closed_extension
extensions = (refl, refl, refl, refl)

abbrev empty_build : Build
empty_build = record { name_dict = []; files = [] }

abbrev any_template : Text → Text
any_template file = codes "@NAME@!"

expanded :
    expand_template true
      (λ file. ok (any_template file))
      names
      (codes "FirXXX.i.t")
      (codes "_x")
      empty_build
    ≡ (
      record {
        name_dict = (codes "i", codes "fir_x.i" ∷ []) ∷ [];
        files = (codes "fir_x.i", codes "fir!") ∷ [];
      },
      ok tt,
    )
unfolding expand_template extract_extension closed_extension value_of extension_of basename
    drop_dots behind_dot logged put_logged put_file do_substitution substitute match_name
    closed_name split_word
expanded = refl

glued :
    output_glue false true
      (codes "Makefile.gen")
      (codes "filter")
      (open_and_log_name false (codes "b.i") (open_and_log_name false (codes "a.i") empty_build))
    ≡ record {
      name_dict = (codes "i", codes "a.i" ∷ codes "b.i" ∷ []) ∷ [];
      files =
          (
            codes "filter_generated.i",
            codes "//"
                ++ newline
                ++ codes "// This file is machine generated.  All edits will be overwritten"
                ++ newline
                ++ codes "//"
                ++ newline
                ++ codes "%{"
                ++ newline
                ++ codes "#include <a.h>"
                ++ newline
                ++ codes "#include <b.h>"
                ++ newline
                ++ codes "%}"
                ++ newline
                ++ newline
                ++ codes "%include <a.i>"
                ++ newline
                ++ codes "%include <b.i>"
                ++ newline,
          )
          ∷ [];
    }
unfolding output_makefile_fragment output_ifile_include extension_of basename drop_dots behind_dot
    logged put_logged put_file sort_names insert_name text_leb but_last
glued = refl

abbrev logged_names : List Text
logged_names = codes "b.cc" ∷ codes "a.h" ∷ codes "a.cc" ∷ []
