-- ===== src/Config/FileLaws.antt =====
-- Which keys a config file can set, and when.
use gr_ccsds.Prelude.{
  ◌≡◌, refl, sym, ap, ◌∙◌, Bool, true, false, ◌||◌, Option, none, some, List, [], ◌∷◌, Text, String,
  ◌=s=◌, All, ok, ||-eq-false, >>=-eq-ok,
}
use gr_ccsds.Config.Dict.{Dict, lookup, insert, lookup-insert}
use gr_ccsds.Config.File.{
  File, Entry, Got, store, read_all, read_if, is_set, get_file_config, missing, raised, got,
  general_entries, usrp_entries, file_entries, demod_entries, frame_sync_entries,
}

abbrev has_key : String → List Entry → Bool
has_key k [] = false
has_key k (e ∷ es) = (e.key =s= k) || has_key k es

store_other :
    (j k : String) (g : Got) (d d' : Dict)
    → store j g d ≡ ok d'
    → (j =s= k) ≡ false
    → lookup k d' ≡ lookup k d
unfolding store
store_other j k missing d d' h ne = cc
store_other j k (raised e) d d' h ne = cc
store_other j k (got v) d d' h ne =
    let e : insert j v d ≡ d' = cc h in rw (← e) (rw lookup-insert (rw ne refl))

module _ (is_float : Text → Bool) (file : File) where
  read_all_other :
      (k : String) (es : List Entry) (d d' : Dict)
      → read_all is_float es file d ≡ ok d'
      → has_key k es ≡ false
      → lookup k d' ≡ lookup k d
  unfolding read_all
  read_all_other k [] d d' h ne = cc
  read_all_other k (e ∷ es) d d' h ne =
      let (d₁, h₁, h₂) = >>=-eq-ok _ _ h in
      let (here, later) = ||-eq-false (e.key =s= k) (has_key k es) ne in
      read_all_other k es d₁ d' h₂ later ∙ store_other e.key k _ d d₁ h₁ here

  read_if_other :
      (b : Bool) (k : String) (es : List Entry) (d d' : Dict)
      → read_if is_float b es file d ≡ ok d'
      → has_key k es ≡ false
      → lookup k d' ≡ lookup k d
  unfolding read_if
  read_if_other true k es d d' h ne = read_all_other k es d d' h ne
  read_if_other false k es d d' h ne = cc h

  read_if_skipped :
      (b : Bool) (es : List Entry) (d d' : Dict)
      → read_if is_float b es file d ≡ ok d'
      → b ≡ false
      → d' ≡ d
  unfolding read_if
  read_if_skipped true es d d' h e = cc
  read_if_skipped false es d d' h e = cc

  -- The dictionary after each of the five parts of the function.
  record Steps (final : Dict) : Type 0 where
    general : Dict
    usrp : Dict
    source : Dict
    demod : Dict
    general_step : read_all is_float general_entries file [] ≡ ok general
    usrp_step : read_if is_float (is_set "from_usrp" general) usrp_entries file general ≡ ok usrp
    source_step : read_if is_float (is_set "from_file" usrp) file_entries file usrp ≡ ok source
    demod_step : read_all is_float demod_entries file source ≡ ok demod
    final_step :
        read_if is_float (is_set "frame_sync" demod) frame_sync_entries file demod ≡ ok final

  steps : (d : Dict) → get_file_config is_float (some file) ≡ ok d → Steps d
  unfolding get_file_config
  steps d h =
      let (general, e₁, h₁) = >>=-eq-ok _ _ h in
      let (usrp, e₂, h₂) = >>=-eq-ok _ _ h₁ in
      let (source, e₃, h₃) = >>=-eq-ok _ _ h₂ in
      let (demod, e₄, h₄) = >>=-eq-ok _ _ h₃ in
      record {
        general = general;
        usrp = usrp;
        source = source;
        demod = demod;
        general_step = e₁;
        usrp_step = e₂;
        source_step = e₃;
        demod_step = e₄;
        final_step = h₄;
      }

  module _ (d : Dict) (s : Steps d) (k : String) where
    -- A key that no later part can set keeps its value.
    from_demod : has_key k frame_sync_entries ≡ false → lookup k d ≡ lookup k s.demod
    from_demod a = read_if_other _ k frame_sync_entries s.demod d s.final_step a

    from_usrp :
        has_key k frame_sync_entries ≡ false
        → has_key k demod_entries ≡ false
        → has_key k file_entries ≡ false
        → lookup k d ≡ lookup k s.usrp
    from_usrp a b c =
        from_demod a
        ∙ read_all_other k demod_entries s.source s.demod s.demod_step b
        ∙ read_if_other _ k file_entries s.usrp s.source s.source_step c

    from_general :
        has_key k frame_sync_entries ≡ false
        → has_key k demod_entries ≡ false
        → has_key k file_entries ≡ false
        → has_key k usrp_entries ≡ false
        → lookup k d ≡ lookup k s.general
    from_general a b c e =
        from_usrp a b c ∙ read_if_other _ k usrp_entries s.general s.usrp s.usrp_step e

    from_nothing : has_key k general_entries ≡ false → lookup k s.general ≡ none
    unfolding lookup
    from_nothing e = read_all_other k general_entries [] s.general s.general_step e

  is_set_same : (k : String) (d d' : Dict) → lookup k d ≡ lookup k d' → is_set k d ≡ is_set k d'
  unfolding is_set
  is_set_same k d d' e = rw (e, is_set) refl

module _ (is_float : Text → Bool) (file : File) (d : Dict) (s : Steps is_float file d) where
  usrp_unset :
      is_set "from_usrp" d ≡ false
      → (k : String) → has_key k general_entries ≡ false
      → has_key k frame_sync_entries ≡ false
      → has_key k demod_entries ≡ false
      → has_key k file_entries ≡ false
      → lookup k d ≡ none
  usrp_unset off k a b c e =
      let flag =
        is_set_same is_float file "from_usrp" d s.general
          (from_general is_float file d s "from_usrp" refl refl refl refl) in
      let same =
        read_if_skipped is_float file _ usrp_entries s.general s.usrp s.usrp_step
          (sym flag ∙ off) in
      from_usrp is_float file d s k b c e ∙ ap (lookup k) same ∙ from_nothing is_float file d s k a

  source_unset :
      is_set "from_file" d ≡ false
      → (k : String) → has_key k general_entries ≡ false
      → has_key k usrp_entries ≡ false
      → has_key k demod_entries ≡ false
      → has_key k frame_sync_entries ≡ false
      → lookup k d ≡ none
  source_unset off k a b c e =
      let flag =
        is_set_same is_float file "from_file" d s.usrp
          (from_usrp is_float file d s "from_file" refl refl refl) in
      let same =
        read_if_skipped is_float file _ file_entries s.usrp s.source s.source_step
          (sym flag ∙ off) in
      from_demod is_float file d s k e
      ∙ read_all_other is_float file k demod_entries s.source s.demod s.demod_step c
      ∙ ap (lookup k) same
      ∙ read_if_other is_float file _ k usrp_entries s.general s.usrp s.usrp_step b
      ∙ from_nothing is_float file d s k a

  frame_sync_unset :
      is_set "frame_sync" d ≡ false
      → (k : String) → has_key k general_entries ≡ false
      → has_key k usrp_entries ≡ false
      → has_key k file_entries ≡ false
      → has_key k demod_entries ≡ false
      → lookup k d ≡ none
  frame_sync_unset off k a b c e =
      let flag =
        is_set_same is_float file "frame_sync" d s.demod
          (from_demod is_float file d s "frame_sync" refl) in
      let same =
        read_if_skipped is_float file _ frame_sync_entries s.demod d s.final_step
          (sym flag ∙ off) in
      ap (lookup k) same
      ∙ read_all_other is_float file k demod_entries s.source s.demod s.demod_step e
      ∙ read_if_other is_float file _ k file_entries s.usrp s.source s.source_step c
      ∙ read_if_other is_float file _ k usrp_entries s.general s.usrp s.usrp_step b
      ∙ from_nothing is_float file d s k a

abbrev pub Unset : List Entry → Dict → Type 0
Unset es d = All (λ e. lookup e.key d ≡ none) es

-- Whatever a config file that is read without an exception holds, its values for the USRP are taken
-- only if it itself turns `from_usrp` on, its `repeat_file` only if it names a `from_file`, and its
-- values for the frame sync only if it itself turns `frame_sync` on.
pub gated_options :
    (is_float : Text → Bool) (file : File) (d : Dict)
    → get_file_config is_float (some file) ≡ ok d
    → (is_set "from_usrp" d ≡ false → Unset usrp_entries d)
      × (is_set "from_file" d ≡ false → Unset file_entries d)
      × (is_set "frame_sync" d ≡ false → Unset frame_sync_entries d)
gated_options is_float file d h =
    let s = steps is_float file d h in
    (
      λ off.
          let gone = usrp_unset is_float file d s off in
          (
            gone "centre_freq" refl refl refl refl,
            (gone "usrp_gain" refl refl refl refl, (gone "sym_rate" refl refl refl refl, tt)),
          ),
      λ off. (source_unset is_float file d s off "repeat_file" refl refl refl refl, tt),
      λ off.
          let gone = frame_sync_unset is_float file d s off in
          (gone "access_code" refl refl refl refl, (gone "sync_threshold" refl refl refl refl, tt)),
    )

-- No config file sets `derandomise`, the key that the rest of the program reads: its option is stored
-- under another spelling, which no default has.
pub derandomise_unset :
    (is_float : Text → Bool) (file : Option File) (d : Dict)
    → get_file_config is_float file ≡ ok d
    → lookup "derandomise" d ≡ none
unfolding lookup get_file_config
derandomise_unset is_float none d h = let e : [] ≡ d = cc h in rw (← e) refl
derandomise_unset is_float (some file) d h =
    let s = steps is_float file d h in
    from_general is_float file d s "derandomise" refl refl refl refl
    ∙ from_nothing is_float file d s "derandomise" refl
