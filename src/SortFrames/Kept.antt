-- ===== src/SortFrames/Kept.antt =====
-- What a slot keeps of the frames of one number.
use gr_ccsds.Prelude.{
  ℕ, ◌≤◌, ◌<◌, ◌≡◌, ◌⊎◌, inl, inr, Option, Bool, true, false, List, [], ◌∷◌, ◌++◌, length,
  length-append, if◌then◌else◌, arith,
}
use gr_ccsds.Prelude.Int.{ℤ}
use gr_ccsds.Pdu.Message.{Message}
use gr_ccsds.SortFrames.Defs.{Config, Duplicates, is_better, value_or_zero, keep}

-- Where duplicates are not allowed a slot has one frame at most; the index of the best frame is that of
-- a frame, where there is one.
abbrev pub IsKept : Config → Duplicates → Type 0
IsKept c d =
    (c.allow_duplicates ≡ false → length d.frames ≤ 1)
    × ((d.frames ≡ []) ⊎ (d.best_index < length d.frames))

-- What is kept of a duplicate, by whether duplicates are allowed and whether it is better.
abbrev choice : Bool → Bool → Message → Message → List Message → ℕ → ℤ → ℤ → Duplicates
choice allow better frame first others i x y =
    if allow
    then record {
      frames = first ∷ others ++ frame ∷ [];
      best_index = if better then length (first ∷ others) else i;
      best_value = if better then y else x;
    }
    else if better
    then record { frames = frame ∷ others; best_index = 0; best_value = y }
    else record { frames = first ∷ others; best_index = i; best_value = x }

kept_choice :
    (allow better : Bool) (frame first : Message) (others : List Message) (i : ℕ) (x y : ℤ)
    → (allow ≡ false → length (first ∷ others) ≤ 1)
    → i < length (first ∷ others)
    → (allow ≡ false → length (choice allow better frame first others i x y).frames ≤ 1)
      × (((choice allow better frame first others i x y).frames ≡ [])
          ⊎ ((choice allow better frame first others i x y).best_index
              < length (choice allow better frame first others i x y).frames))
kept_choice true true frame first others i x y one lt =
    (λ e. absurd (cc e), inr (omega (arith, length-append (first ∷ others) (frame ∷ []))))
kept_choice true false frame first others i x y one lt =
    (λ e. absurd (cc e), inr (omega (arith, length-append (first ∷ others) (frame ∷ []))))
kept_choice false true frame first others i x y one lt = (λ e. one e, inr (omega arith))
kept_choice false false frame first others i x y one lt = (one, inr lt)

keep_fields :
    (c : Config) (frame : Message) (score : Option ℤ) (frames : List Message) (i : ℕ) (x : ℤ)
    → IsKept c (record { frames = frames; best_index = i; best_value = x })
    → IsKept c (keep c frame score (record { frames = frames; best_index = i; best_value = x }))
unfolding keep
keep_fields c frame score [] i x h = (λ e. omega arith, inr (omega arith))
keep_fields c frame score (first ∷ others) i x (one, inl e) = absurd (cc e)
keep_fields c frame score (first ∷ others) i x (one, inr lt) =
    kept_choice c.allow_duplicates (is_better c score x) frame first others i x
      (value_or_zero score) one lt

pub keep-IsKept :
    (c : Config) (frame : Message) (score : Option ℤ) (d : Duplicates)
    → IsKept c d
    → IsKept c (keep c frame score d)
keep-IsKept c frame score d h = keep_fields c frame score d.frames d.best_index d.best_value h
