-- ===== src/Config/MainLaws.antt =====
-- What the configuration of the receiver guarantees to the flow graph that is built from it.
use gr_ccsds.Prelude.{
  ◌≡◌, ◌≢◌, refl, sym, ap, ◌∙◌, ◌⊎◌, inl, inr, ◌*◌, Bool, true, false, Option, none, some, Text,
  String, Bool-cases, arith, Result, ok, err, ℕ, >>=-eq-ok, refused_last, >>-eq-ok, system_exit,
  codes, length,
}
use gr_ccsds.Prelude.Int.{pos}
use gr_ccsds.Config.Values.{Value, nothing, boolean, integer, text, is_true, is_nothing}
use gr_ccsds.Config.Dict.{Dict, lookup, insert, lookup-insert, or_else, attr}
use gr_ccsds.Config.File.{File, find, get_file_config}
use gr_ccsds.Config.Merge.{merge, default_config, configure, config_filename}
use gr_ccsds.Config.MergeLaws.{merge_priority}
use gr_ccsds.Config.FileLaws.{derandomise_unset}
use gr_ccsds.Config.Main.{
  neither, len, check_source, check_sync, check_sink, with_code, fill_code, set_length, derive,
  prepare,
}

-- The merged options come from the three sources in their order.
configure_parts :
    (is_float : Text → Bool) (read : Value → Option File) (c o : Dict)
    → configure is_float read c ≡ ok o
    → (f : Dict) × (get_file_config is_float (read (config_filename c)) ≡ ok f)
      × (merge default_config c f c ≡ o)
unfolding configure
configure_parts is_float read c o h = let (f, e, h') = >>=-eq-ok _ _ h in (f, e, cc h')

-- With any config file, `derandomise` is what the command line says, and else its default, True: the
-- file cannot turn the de-randomiser off.
pub configure-derandomise :
    (is_float : Text → Bool) (read : Value → Option File) (c o : Dict)
    → configure is_float read c ≡ ok o
    → lookup "derandomise" o ≡ or_else (lookup "derandomise" c) (some (boolean true))
unfolding find
configure-derandomise is_float read c o h =
    let (f, e, merged) = configure_parts is_float read c o h in
    ap (lookup "derandomise") (sym merged)
    ∙ merge_priority default_config c f "derandomise"
    ∙ ap (λ v. or_else (lookup "derandomise" c) (or_else v (some (boolean true))))
        (derandomise_unset is_float _ f e)

is_some-or_else : (a b : Option Value) (v : Value) → or_else a (or_else b (some v)) ≢ none
is_some-or_else a b v = ground arith

-- After the merging every key that has a default is an attribute of the options object, whatever the
-- command line and the config file say: no later read of such an option raises.
pub configure_complete :
    (is_float : Text → Bool) (read : Value → Option File) (c o : Dict) (k : String) (v : Value)
    → configure is_float read c ≡ ok o
    → find k default_config ≡ some v
    → lookup k o ≢ none
configure_complete is_float read c o k v h known =
    let (f, _, merged) = configure_parts is_float read c o h in
    let prior =
      ap (lookup k) (sym merged)
      ∙ merge_priority default_config c f k
      ∙ ap
          (λ w.
            or_else (lookup k c) (elim w [ none ↦ none | some u ↦ or_else (lookup k f) (some u) ]))
          known in
    λ gone. is_some-or_else (lookup k c) (lookup k f) v (sym prior ∙ gone)

is_true_lem : (v : Value) → is_true v ≡ true → v ≡ boolean true
unfolding is_true
is_true_lem (boolean true) h = refl
is_true_lem (boolean false) h = cc
is_true_lem v h = cc

not_nothing : (v : Value) → is_nothing v ≡ false → v ≢ nothing
unfolding is_nothing
not_nothing v h e = cc (h, ap is_nothing e)

-- A refusal is avoided in one of two ways.
neither_no :
    (a b : Result Value)
    → neither a b ≡ ok false
    → (a ≡ ok (boolean true)) ⊎ ((v : Value) × (b ≡ ok v) × (v ≢ nothing))
unfolding neither
neither_no (err e) b h = cc
neither_no (ok v) (err e) h = elim (Bool-cases (is_true v)) [
  | inl t ↦ inl (ap ok (is_true_lem v t))
  | inr f ↦ absurd (ground arith)
]
neither_no (ok v) (ok w) h = elim (Bool-cases (is_true v)) [
  | inl t ↦ inl (ap ok (is_true_lem v t))
  | inr f ↦ inr (w, refl, not_nothing w (ground arith))
]

attr-ok : (k : String) (o : Dict) (v : Value) → attr k o ≡ ok v → lookup k o ≡ some v
attr-ok k o v h = ground arith

-- One of two options is as it must be: `a` is True, or `b` is not None.
abbrev pub Either : String → String → Dict → Type 0
Either a b o =
    (lookup a o ≡ some (boolean true)) ⊎ ((v : Value) × (lookup b o ≡ some v) × (v ≢ nothing))

checked-Either : (a b : String) (o : Dict) → neither (attr a o) (attr b o) ≡ ok false → Either a b o
checked-Either a b o h = elim (neither_no _ _ h) [
  | inl e ↦ inl (attr-ok a o (boolean true) e)
  | inr (v, e, n) ↦ inr (v, attr-ok b o v e, n)
]

check_source_sound : (o : Dict) → check_source o ≡ ok tt → Either "from_usrp" "from_file" o
unfolding check_source
check_source_sound o h =
    let (no_source, e, h') = >>=-eq-ok _ _ h in
    checked-Either "from_usrp" "from_file" o (e ∙ ap ok (refused_last no_source (system_exit 1) h'))

check_sink_sound : (o : Dict) → check_sink o ≡ ok tt → Either "inspect_queue" "to_file" o
unfolding check_sink
check_sink_sound o h =
    let (no_sink, e, h') = >>=-eq-ok _ _ h in
    checked-Either "inspect_queue" "to_file" o (e ∙ ap ok (refused_last no_sink (system_exit 1) h'))

len-ok : (v : Value) (n : ℕ) → len v ≡ ok n → (s : Text) × (v ≡ text s) × (n ≡ length s)
unfolding len
len-ok (text s) n h = (s, refl, cc)
len-ok v n h = cc

abbrev pub Derived : Dict → Dict → Type 0
Derived o o' =
    (lookup "message_bits" o' ≡ lookup "frame_syms" o)
    × (code : Text) × (lookup "access_code" o' ≡ some (text code))
    × (lookup "code_length" o' ≡ some (integer (pos (length code * 4))))

message_bits-with_code :
    (given : Value) (o : Dict) → lookup "message_bits" (with_code given o) ≡ lookup "message_bits" o
message_bits-with_code given o =
    ground (arith, lookup-insert "access_code" "message_bits" (text (codes "1ACFFC1D")) o)

fill_code_lem :
    (o o' : Dict) → fill_code o ≡ ok o' → lookup "message_bits" o' ≡ lookup "message_bits" o
unfolding fill_code
fill_code_lem o o' h =
    let (given, e, h') = >>=-eq-ok (attr "access_code" o) _ h in
    let final : with_code given o ≡ o' = cc h' in
    ap (lookup "message_bits") (sym final) ∙ message_bits-with_code given o

set_length_lem :
    (o o' : Dict)
    → set_length o ≡ ok o'
    → (lookup "message_bits" o' ≡ lookup "message_bits" o)
      × (code : Text) × (lookup "access_code" o' ≡ some (text code))
      × (lookup "code_length" o' ≡ some (integer (pos (length code * 4))))
unfolding set_length
set_length_lem o o' h =
    let (access_code, e₁, h₁) = >>=-eq-ok (attr "access_code" o) _ h in
    let (n, e₂, h₂) = >>=-eq-ok (len access_code) _ h₁ in
    let (code, e₃, e₄) = len-ok access_code n e₂ in
    let final : insert "code_length" (integer (pos (n * 4))) o ≡ o' = cc h₂ in
    let at = λ (k : String).
      ap (lookup k) (sym final) ∙ lookup-insert "code_length" k (integer (pos (n * 4))) o in
    (
      at "message_bits",
      code,
      at "access_code" ∙ attr-ok "access_code" o access_code e₁ ∙ ap some e₃,
      at "code_length" ∙ ap (λ m. some (integer (pos (m * 4)))) e₄,
    )

derive_lem : (o o' : Dict) → derive o ≡ ok o' → Derived o o'
unfolding derive
derive_lem o o' h =
    let (frame_syms, e₁, h₁) = >>=-eq-ok _ _ h in
    let (filled, e₂, h₂) = >>=-eq-ok _ _ h₁ in
    let (kept, code, e₃, e₄) = set_length_lem filled o' h₂ in
    (
      kept
          ∙ fill_code_lem _ filled e₂
          ∙ lookup-insert "message_bits" "message_bits" frame_syms o
          ∙ sym (attr-ok "frame_syms" o frame_syms e₁),
      code,
      e₃,
      e₄,
    )

-- When the options pass their validation, from_usrp is True or from_file is not None, and inspect_queue
-- is True or to_file is not None (an empty path passes); the number of bits of a message is the number
-- of symbols of a frame, the sync marker is a text, and its length in bits is four for each digit.
pub prepare_sound :
    (enter : Bool) (o o' : Dict)
    → prepare enter o ≡ ok o'
    → Either "from_usrp" "from_file" o × Either "inspect_queue" "to_file" o × Derived o o'
unfolding prepare
prepare_sound enter o o' h =
    let (e₁, h₁) = >>-eq-ok (check_source o) _ h in
    let (e₂, h₂) = >>-eq-ok (check_sync enter o) _ h₁ in
    let (e₃, h₃) = >>-eq-ok (check_sink o) _ h₂ in
    (check_source_sound o e₁, check_sink_sound o e₃, derive_lem o o' h₃)
