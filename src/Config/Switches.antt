-- ===== src/Config/Switches.antt =====
-- What the command line cannot turn off.
use gr_ccsds.Prelude.{
  ◌≡◌, refl, sym, ap, subst, if◌then◌else◌, ◌∙◌, ◌⊎◌, inl, inr, Option, none, some, Bool, true,
  false, not, ◌&&◌, ◌||◌, List, [], ◌∷◌, Text, String, ◌=s=◌, eq_iff, Exception, Bool-cases, ok,
  or_raise, system_exit, >>=-eq-ok, arith,
}
use gr_ccsds.Prelude.Int.{ℤ}
use gr_ccsds.Config.Values.{Value, boolean}
use gr_ccsds.Config.Dict.{Dict, lookup, insert, lookup-insert}
use gr_ccsds.Config.File.{File, find}
use gr_ccsds.Config.Merge.{default_config, configure, merge}
use gr_ccsds.Config.CommandLine.{
  Action, store_true, store_text, store_int, option_table, Occurrence, stored, take_option,
  take_options, get_command_line_config,
}
use gr_ccsds.Config.MergeLaws.{merge_priority}
use gr_ccsds.Config.MainLaws.{configure-derandomise}

abbrev is_store_true : Action → Bool
is_store_true store_true = true
is_store_true _ = false

-- Every option of the table for this `dest` is a switch.
unfoldable pub is_switch : String → List (String × (Action × String)) → Bool
is_switch k [] = true
is_switch k ((name, (action, dest)) ∷ t) =
    let rest = is_switch k t in (not (dest =s= k) || is_store_true action) && rest

found_switch :
    (k name dest : String) (action : Action) (t : List (String × (Action × String)))
    → is_switch k t ≡ true
    → find name t ≡ some (action, dest)
    → dest ≡ k
    → action ≡ store_true
unfolding is_switch find
found_switch k name dest action [] h e same = cc
found_switch k name dest action ((n, (a, d)) ∷ t) h e same =
    ground (arith, found_switch k name dest action t, eq_iff n name, eq_iff d k)

-- The value that a switch has on the command line, if any.
abbrev AtMostOn : Option Value → Type 0
AtMostOn v = (v ≡ none) ⊎ (v ≡ some (boolean true))

or_raise-some :
    (e : Exception) (found : Option (Action × String)) {a : Action × String}
    → or_raise e found ≡ ok a
    → found ≡ some a
or_raise-some e none h = cc
or_raise-some e (some a) h = cc

stored_switch :
    (read_int : Text → Option ℤ) (action : Action) (argument : Text) (v : Value)
    → action ≡ store_true
    → stored read_int action argument ≡ ok v
    → v ≡ boolean true
unfolding stored
stored_switch read_int store_true argument v on e = cc e
stored_switch read_int store_text argument v on e = cc on
stored_switch read_int store_int argument v on e = cc on

if_yes : {b : Bool} (v w : Option Value) → b ≡ true → (if b then v else w) ≡ v
if_yes v w e = rw e refl

if_no : {b : Bool} (v w : Option Value) → b ≡ false → (if b then v else w) ≡ w
if_no v w e = rw e refl

module _ (read_int : Text → Option ℤ) (k : String) (switch : is_switch k option_table ≡ true) where
  take_option-AtMostOn :
      (o : Occurrence) (d d' : Dict)
      → AtMostOn (lookup k d)
      → take_option read_int o d ≡ ok d'
      → AtMostOn (lookup k d')
  unfolding take_option
  take_option-AtMostOn (name, argument) d d' h e =
      let ((action, dest), e₁, e₂) =
        >>=-eq-ok (or_raise (system_exit 2) (find name option_table)) _ e in
      let (v, e₃, e₄) = >>=-eq-ok (stored read_int action argument) _ e₂ in
      let new : insert dest v d ≡ d' = cc e₄ in
      let value = ap (lookup k) (sym new) ∙ lookup-insert dest k v d in
      let found = or_raise-some _ _ e₁ in
      elim (Bool-cases (dest =s= k)) [
        | inl same ↦
            let on =
              found_switch k name dest action option_table switch found ((eq_iff dest k).0 same) in
            inr (value ∙ if_yes _ _ same ∙ ap some (stored_switch read_int action argument v on e₃))
        | inr other ↦ subst AtMostOn (sym (value ∙ if_no _ _ other)) h
      ]

  take_options-AtMostOn :
      (os : List Occurrence) (d d' : Dict)
      → AtMostOn (lookup k d)
      → take_options read_int os d ≡ ok d'
      → AtMostOn (lookup k d')
  unfolding take_options
  take_options-AtMostOn [] d d' h e = let same : d ≡ d' = cc e in rw (← same) h
  take_options-AtMostOn (o ∷ os) d d' h e =
      let (d₁, e₁, e₂) = >>=-eq-ok (take_option read_int o d) _ e in
      take_options-AtMostOn os d₁ d' (take_option-AtMostOn o d d₁ h e₁) e₂

-- A switch of the table that is on by default stays on, whatever the command line, unless the config
-- file sets it: no option turns it off.
pub switch_stays_on :
    (read_int : Text → Option ℤ) (k : String) (os : List Occurrence) (c f : Dict)
    → is_switch k option_table ≡ true
    → find k default_config ≡ some (boolean true)
    → get_command_line_config read_int os ≡ ok c
    → lookup k f ≡ none
    → lookup k (merge default_config c f c) ≡ some (boolean true)
unfolding lookup
switch_stays_on read_int k os c f switch on given unset =
    let given_k = take_options-AtMostOn read_int k switch os [] c (inl refl) given in
    merge_priority default_config c f k
    ∙ elim given_k [ inl e ↦ rw (e, on, unset) refl | inr e ↦ rw e refl ]

-- The de-randomiser is always on, whatever the command line and the config file.
pub derandomise_always_on :
    (is_float : Text → Bool) (read_int : Text → Option ℤ) (read : Value → Option File)
    (os : List Occurrence) (c o : Dict)
    → get_command_line_config read_int os ≡ ok c
    → configure is_float read c ≡ ok o
    → lookup "derandomise" o ≡ some (boolean true)
unfolding lookup is_switch
derandomise_always_on is_float read_int read os c o given merged =
    let given_k = take_options-AtMostOn read_int "derandomise" refl os [] c (inl refl) given in
    configure-derandomise is_float read c o merged
    ∙ elim given_k [ inl e ↦ rw e refl | inr e ↦ rw e refl ]
