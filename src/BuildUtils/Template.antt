-- ===== src/BuildUtils/Template.antt =====
-- What the substitution gives, by the pieces of a template.
use gr_ccsds.Prelude.{
  ℕ, zero, suc, ◌+◌, ◌≤◌, ◌≡◌, ◌≢◌, refl, sym, ap, ◌∙◌, none, some, true, List, [], ◌∷◌, ◌++◌, Text,
  All, Result, ok, err, ◌>>=◌, length, length-append, arith,
}
use gr_ccsds.BuildUtils.Substitute.{
  Names, value_of, is_word, split_word, closed_name, match_name, substitute, do_substitution,
}

-- A template is plain text, without an @, and names.
pub data Piece : Type 0 where
  plain_text name : Text → Piece

abbrev pub IsPiece : Piece → Type 0
IsPiece (plain_text s) = All (λ c. c ≢ b'@') s
IsPiece (name s) = (s ≢ []) × All (λ c. is_word c ≡ true) s

unfoldable pub print_pieces : List Piece → Text
print_pieces [] = []
print_pieces (plain_text s ∷ ps) = s ++ print_pieces ps
print_pieces (name s ∷ ps) = b'@' ∷ (s ++ b'@' ∷ print_pieces ps)

-- The plain texts as they are, and the values of the names.
unfoldable pub fill_pieces : Names → List Piece → Result Text
fill_pieces d [] = ok []
fill_pieces d (plain_text s ∷ ps) = do t ← fill_pieces d ps; ok (s ++ t)
fill_pieces d (name s ∷ ps) = do v ← value_of d s; t ← fill_pieces d ps; ok (v ++ t)

split_word-name :
    (s t : Text) → All (λ c. is_word c ≡ true) s → split_word (s ++ b'@' ∷ t) ≡ (s, b'@' ∷ t)
unfolding split_word
split_word-name [] t h = refl
split_word-name (c ∷ s) t h = rw (split_word-name s t h.1, h.0) refl

match_name-name :
    (s t : Text)
    → s ≢ []
    → All (λ c. is_word c ≡ true) s
    → match_name b'@' (s ++ b'@' ∷ t) ≡ some (s, t)
unfolding match_name closed_name
match_name-name [] t ne h = absurd (ne refl)
match_name-name (c ∷ s) t ne h = rw (split_word-name (c ∷ s) t h) refl

match_name-plain : (c : ℕ) (s : Text) → c ≢ b'@' → match_name c s ≡ none
unfolding match_name
match_name-plain c s h = ground arith

substitute-skip :
    (n : ℕ) (d : Names) (c : ℕ) (s : Text)
    → match_name c s ≡ none
    → substitute (suc n) d (c ∷ s) ≡ (substitute n d s >>= λ t. ok (c ∷ t))
unfolding substitute
substitute-skip n d c s e = rw (e, substitute) refl

substitute-match :
    (n : ℕ) (d : Names) (c : ℕ) (s key r : Text)
    → match_name c s ≡ some (key, r)
    → substitute (suc n) d (c ∷ s) ≡ (value_of d key >>= λ v. substitute n d r >>= λ t. ok (v ++ t))
unfolding substitute
substitute-match n d c s key r e = rw (e, substitute) refl

substitute-empty : (n : ℕ) (d : Names) → substitute n d [] ≡ ok []
unfolding substitute
substitute-empty zero d = refl
substitute-empty (suc n) d = refl

abbrev put_before : Text → Result Text → Result Text
put_before s r = r >>= λ t. ok (s ++ t)

put_nothing : (r : Result Text) → put_before [] r ≡ r
put_nothing (ok t) = refl
put_nothing (err e) = refl

put_twice :
    (c : ℕ) (s : Text) (r : Result Text)
    → (put_before s r >>= λ t. ok (c ∷ t)) ≡ put_before (c ∷ s) r
put_twice c s (ok t) = refl
put_twice c s (err e) = refl

-- Plain text goes through unchanged.
substitute-plain :
    (n : ℕ) (d : Names) (s rest : Text) (r : Result Text)
    → All (λ c. c ≢ b'@') s
    → length s + length rest ≤ n
    → ((k : ℕ) → length rest ≤ k → substitute k d rest ≡ r)
    → substitute n d (s ++ rest) ≡ put_before s r
substitute-plain n d [] rest r h fuel e = e n (omega arith) ∙ sym (put_nothing r)
substitute-plain zero d (c ∷ s) rest r h fuel e = absurd (omega arith)
substitute-plain (suc n) d (c ∷ s) rest r h fuel e =
    substitute-skip n d c (s ++ rest) (match_name-plain c (s ++ rest) h.0)
    ∙ ap (λ m. m >>= λ t. ok (c ∷ t)) (substitute-plain n d s rest r h.1 (omega arith) e)
    ∙ put_twice c s r

length-named : (s t : Text) (n : ℕ) → suc (length (s ++ b'@' ∷ t)) ≤ suc n → suc (length t) ≤ n
length-named s t n h = omega (arith, length-append s (b'@' ∷ t))

substitute-fill :
    (n : ℕ) (d : Names) (ps : List Piece)
    → All IsPiece ps
    → length (print_pieces ps) ≤ n
    → substitute n d (print_pieces ps) ≡ fill_pieces d ps
unfolding print_pieces fill_pieces
substitute-fill n d [] h fuel = substitute-empty n d
substitute-fill n d (plain_text s ∷ ps) h fuel =
    substitute-plain n d s (print_pieces ps) (fill_pieces d ps) h.0
      (omega (arith, length-append s (print_pieces ps))) (λ k more. substitute-fill k d ps h.1 more)
substitute-fill zero d (name s ∷ ps) h fuel = absurd (omega arith)
substitute-fill (suc n) d (name s ∷ ps) h fuel =
    substitute-match n d b'@' (s ++ b'@' ∷ print_pieces ps) s (print_pieces ps)
      (match_name-name s (print_pieces ps) h.0.0 h.0.1)
    ∙ ap (λ m. value_of d s >>= λ v. m >>= λ t. ok (v ++ t))
        (substitute-fill n d ps h.1
          (let shorter = length-named s (print_pieces ps) n fuel in omega arith))

-- The pieces of a template come out one behind the other, the plain texts as they are and each name as
-- its value; a name without a value ends in KeyError.
pub do_substitution-print :
    (d : Names) (ps : List Piece)
    → All IsPiece ps
    → do_substitution d (print_pieces ps) ≡ fill_pieces d ps
unfolding do_substitution
do_substitution-print d ps h = substitute-fill (length (print_pieces ps)) d ps h (omega arith)
