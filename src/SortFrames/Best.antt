-- ===== src/SortFrames/Best.antt =====
-- What is kept of the frames of one number: all of them, or one of the best score, or the first or the
-- last.
use gr_ccsds.Prelude.{
  String, ℕ, ◌≡◌, ◌≢◌, refl, sym, ap, ◌∙◌, ◌⊎◌, inl, inr, Option, some, Bool, true, false, List, [],
  ◌∷◌, ◌++◌, append-nil, append_assoc, All, if◌then◌else◌, arith,
}
use gr_ccsds.Prelude.Int.{ℤ, ◌≤ℤ◌, ltb_ℤ}
use gr_ccsds.Pdu.Message.{Message}
use gr_ccsds.SortFrames.Defs.{Config, Duplicates, no_duplicates, value_or_zero, is_better, keep}
use gr_ccsds.SortFrames.Sorting.{has_number, score_of, collected}

-- The frames with the number `n`.
unfoldable pub of_number : Config → ℕ → List Message → List Message
of_number c n [] = []
of_number c n (m ∷ ms) = let rest = of_number c n ms in if has_number c n m then m ∷ rest else rest

-- What is kept of all the frames, in turn.
unfoldable pub kept_of : Config → List Message → Duplicates → Duplicates
kept_of c [] d = d
kept_of c (m ∷ ms) d = kept_of c ms (keep c m (score_of c m) d)

collected_choice :
    (b : Bool) (c : Config) (n : ℕ) (m : Message) (ms : List Message) (d : Duplicates)
    → ((d : Duplicates) → collected c n ms d ≡ kept_of c (of_number c n ms) d)
    → collected c n ms (if b then keep c m (score_of c m) d else d)
      ≡ kept_of c (if b then m ∷ of_number c n ms else of_number c n ms) d
unfolding kept_of
collected_choice true c n m ms d h = h (keep c m (score_of c m) d)
collected_choice false c n m ms d h = h d

pub collected-of_number :
    (c : Config) (n : ℕ) (ms : List Message) (d : Duplicates)
    → collected c n ms d ≡ kept_of c (of_number c n ms) d
unfolding collected kept_of of_number
collected-of_number c n [] d = refl
collected-of_number c n (m ∷ ms) d =
    collected_choice (has_number c n m) c n m ms d (collected-of_number c n ms)

keep-allowed :
    (c : Config) (m : Message) (score : Option ℤ) (frames : List Message) (i : ℕ) (x : ℤ)
    → c.allow_duplicates ≡ true
    → (keep c m score (record { frames = frames; best_index = i; best_value = x })).frames
      ≡ frames ++ m ∷ []
unfolding keep
keep-allowed c m score [] i x h = refl
keep-allowed c m score (f ∷ fs) i x h = rw h refl

kept_of-allowed :
    (c : Config) (ms : List Message) (d : Duplicates)
    → c.allow_duplicates ≡ true
    → (kept_of c ms d).frames ≡ d.frames ++ ms
unfolding kept_of
kept_of-allowed c [] d h = sym (append-nil d.frames)
kept_of-allowed c (m ∷ ms) d h =
    kept_of-allowed c ms (keep c m (score_of c m) d) h
    ∙ ap (λ fs. fs ++ ms) (keep-allowed c m (score_of c m) d.frames d.best_index d.best_value h)
    ∙ append_assoc d.frames (m ∷ []) ms

-- Where duplicates are allowed, all the frames of a number are kept, in the order of their arrival.
pub collected-allowed :
    (c : Config) (n : ℕ) (ms : List Message)
    → c.allow_duplicates ≡ true
    → (collected c n ms no_duplicates).frames ≡ of_number c n ms
collected-allowed c n ms h =
    ap (λ d. d.frames) (collected-of_number c n ms no_duplicates)
    ∙ kept_of-allowed c (of_number c n ms) no_duplicates h

abbrev pub value : Config → Message → ℤ
value c m = value_or_zero (score_of c m)

-- One frame, with its score.
abbrev one : Config → Message → ℕ → Duplicates
one c m i = record { frames = m ∷ []; best_index = i; best_value = value c m }

keep-one :
    (c : Config) (m first : Message) (i : ℕ)
    → c.allow_duplicates ≡ false
    → keep c m (score_of c m) (one c first i)
      ≡ (if is_better c (score_of c m) (value c first) then one c m 0 else one c first i)
unfolding keep
keep-one c m first i h = rw h refl

-- The second score is as good as the first, or better.
abbrev pub IsAsGood : Bool → ℤ → ℤ → Type 0
IsAsGood true x y = x ≤ℤ y
IsAsGood false x y = y ≤ℤ x

abbrev pub IsIn : Message → List Message → Type 0
IsIn m [] = ⊥
IsIn m (x ∷ xs) = (m ≡ x) ⊎ IsIn m xs

-- The frame is the only one kept, is one of those given, and has a score as good as all of theirs.
pub record IsBest (c : Config) (ms : List Message) (d : Duplicates) (frame : Message) : Type 0 where
  pub alone : d.frames ≡ frame ∷ []
  pub given : IsIn frame ms
  pub best : All (λ m. IsAsGood c.sort_ascending (value c m) (value c frame)) ms

IsAsGood-refl : (b : Bool) (x : ℤ) → IsAsGood b x x
IsAsGood-refl true x = omega arith
IsAsGood-refl false x = omega arith

IsAsGood-trans : (b : Bool) (x y z : ℤ) → IsAsGood b x y → IsAsGood b y z → IsAsGood b x z
IsAsGood-trans true x y z h k = omega arith
IsAsGood-trans false x y z h k = omega arith

compared :
    (b : Bool) (x y : ℤ)
    → let test = if b then ltb_ℤ y x else ltb_ℤ x y in
      ((test ≡ true) × IsAsGood b y x) ⊎ ((test ≡ false) × IsAsGood b x y)
compared true x y = ground arith
compared false x y = ground arith

is_better-cases :
    (c : Config) (f : String) (score : Option ℤ) (best : ℤ)
    → c.score_field ≡ some f
    → ((is_better c score best ≡ true) × IsAsGood c.sort_ascending best (value_or_zero score))
      ⊎ ((is_better c score best ≡ false) × IsAsGood c.sort_ascending (value_or_zero score) best)
is_better-cases c f score best h =
    rw (is_better, h) (compared c.sort_ascending (value_or_zero score) best)

kept_of-IsBest :
    (c : Config) (f : String) (ms : List Message) (first : Message) (i : ℕ)
    → c.allow_duplicates ≡ false
    → c.score_field ≡ some f
    → (frame : Message) × IsBest c (first ∷ ms) (kept_of c ms (one c first i)) frame
unfolding kept_of
kept_of-IsBest c f [] first i single scored = (
  first,
  record {
    alone = refl;
    given = inl refl;
    best = (IsAsGood-refl c.sort_ascending (value c first), tt);
  },
)
kept_of-IsBest c f (m ∷ ms) first i single scored =
    elim (is_better-cases c f (score_of c m) (value c first) scored) [
      | inl (better, as_good) ↦
          let (frame, rest) = kept_of-IsBest c f ms m 0 single scored in
          (frame, replaced (choose true better) rest as_good)
      | inr (worse, as_good) ↦
          let (frame, rest) = kept_of-IsBest c f ms first i single scored in
          (frame, left (choose false worse) rest as_good)
    ]
  where
    choose :
        (b : Bool)
        → is_better c (score_of c m) (value c first) ≡ b
        → keep c m (score_of c m) (one c first i) ≡ (if b then one c m 0 else one c first i)
    choose b e = keep-one c m first i single ∙ ap (λ b. if b then one c m 0 else one c first i) e

    replaced :
        {frame : Message}
        → keep c m (score_of c m) (one c first i) ≡ one c m 0
        → IsBest c (m ∷ ms) (kept_of c ms (one c m 0)) frame
        → IsAsGood c.sort_ascending (value c first) (value c m)
        → IsBest c (first ∷ m ∷ ms) (kept_of c ms (keep c m (score_of c m) (one c first i))) frame
    replaced {frame = frame} e rest as_good = record {
      alone = ap (λ d. (kept_of c ms d).frames) e ∙ rest.alone;
      given = inr rest.given;
      best = (
        IsAsGood-trans c.sort_ascending (value c first) (value c m) (value c frame) as_good
            rest.best.0,
        rest.best,
      );
    }

    left :
        {frame : Message}
        → keep c m (score_of c m) (one c first i) ≡ one c first i
        → IsBest c (first ∷ ms) (kept_of c ms (one c first i)) frame
        → IsAsGood c.sort_ascending (value c m) (value c first)
        → IsBest c (first ∷ m ∷ ms) (kept_of c ms (keep c m (score_of c m) (one c first i))) frame
    left {frame = frame} e rest as_good = record {
      alone = ap (λ d. (kept_of c ms d).frames) e ∙ rest.alone;
      given = elim rest.given [ inl p ↦ inl p | inr p ↦ inr (inr p) ];
      best = (
        rest.best.0,
        (
          IsAsGood-trans c.sort_ascending (value c m) (value c first) (value c frame) as_good
              rest.best.0,
          rest.best.1,
        ),
      );
    }

-- Where duplicates are not allowed and frames have scores: of the frames of a number, if there are any,
-- one is kept, and none of them has a better score, which is a higher one or a lower one as configured.
pub collected-IsBest :
    (c : Config) (f : String) (n : ℕ) (ms : List Message)
    → c.allow_duplicates ≡ false
    → c.score_field ≡ some f
    → of_number c n ms ≢ []
    → (frame : Message) × IsBest c (of_number c n ms) (collected c n ms no_duplicates) frame
unfolding kept_of keep
collected-IsBest c f n ms single scored some_frames =
    rw (collected-of_number c n ms no_duplicates) (by_frames (of_number c n ms) some_frames)
  where
    by_frames :
        (fs : List Message)
        → fs ≢ []
        → (frame : Message) × IsBest c fs (kept_of c fs no_duplicates) frame
    by_frames [] h = absurd (h refl)
    by_frames (first ∷ rest) h = kept_of-IsBest c f rest first 0 single scored
