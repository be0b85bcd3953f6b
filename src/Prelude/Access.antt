-- ===== src/Prelude/Access.antt =====
-- What stands at an index of a list after a write, an append or a shift.
use Prim.Native.Nat.{ℕ, zero, suc, ◌+◌, ◌<◌}
use mathlib.Core.Path.{◌≡◌, refl, ap, ◌∙◌}
use mathlib.Core.Logic.{◌≢◌}
use mathlib.Core.List.{List, [], ◌∷◌, ◌++◌}
use native.Mathlib.Omega.{arith}
use gr_ccsds.Prelude.Lists.{length, get_or, set, take, drop, replicate}

module _ {ℓ} {A : Type ℓ} where
  pub get_or-set_self :
      (xs : List A) (i : ℕ) (v e : A) → i < length xs → get_or (set xs i v) i e ≡ v
  get_or-set_self [] i v e h = absurd (omega arith)
  get_or-set_self (x ∷ xs) zero v e h = refl
  get_or-set_self (x ∷ xs) (suc i) v e h = get_or-set_self xs i v e (omega arith)

  pub get_or-set_ne :
      (xs : List A) (i j : ℕ) (v e : A) → i ≢ j → get_or (set xs i v) j e ≡ get_or xs j e
  get_or-set_ne [] i j v e h = refl
  get_or-set_ne (x ∷ xs) zero zero v e h = absurd (h refl)
  get_or-set_ne (x ∷ xs) zero (suc j) v e h = refl
  get_or-set_ne (x ∷ xs) (suc i) zero v e h = refl
  get_or-set_ne (x ∷ xs) (suc i) (suc j) v e h = get_or-set_ne xs i j v e (λ p. h (ap suc p))

  pub get_or-replicate : (n i : ℕ) (v : A) → get_or (replicate n v) i v ≡ v
  get_or-replicate zero i v = refl
  get_or-replicate (suc n) zero v = refl
  get_or-replicate (suc n) (suc i) v = get_or-replicate n i v

  pub get_or-append_left :
      (xs ys : List A) (i : ℕ) (d : A) → i < length xs → get_or (xs ++ ys) i d ≡ get_or xs i d
  get_or-append_left [] ys i d h = absurd (omega arith)
  get_or-append_left (x ∷ xs) ys zero d h = refl
  get_or-append_left (x ∷ xs) ys (suc i) d h = get_or-append_left xs ys i d (omega arith)

  pub get_or-append_right :
      (xs ys : List A) (i : ℕ) (d : A) → get_or (xs ++ ys) (length xs + i) d ≡ get_or ys i d
  get_or-append_right [] ys i d = let same : 0 + i ≡ i = omega arith in ap (λ k. get_or ys k d) same
  get_or-append_right (x ∷ xs) ys i d =
      let same : suc (length xs) + i ≡ suc (length xs + i) = omega arith in
      ap (λ k. get_or (x ∷ xs ++ ys) k d) same ∙ get_or-append_right xs ys i d

  pub get_or-drop :
      (k : ℕ) (xs : List A) (i : ℕ) (d : A) → get_or (drop k xs) i d ≡ get_or xs (k + i) d
  get_or-drop zero xs i d = let same : 0 + i ≡ i = omega arith in rw same refl
  get_or-drop (suc k) [] i d = refl
  get_or-drop (suc k) (x ∷ xs) i d =
      let same : suc (k + i) ≡ suc k + i = omega arith in
      get_or-drop k xs i d ∙ ap (λ j. get_or (x ∷ xs) j d) same

  pub get_or-take :
      (k : ℕ) (xs : List A) (i : ℕ) (d : A) → i < k → get_or (take k xs) i d ≡ get_or xs i d
  get_or-take zero xs i d h = absurd (omega arith)
  get_or-take (suc k) [] i d h = refl
  get_or-take (suc k) (x ∷ xs) zero d h = refl
  get_or-take (suc k) (x ∷ xs) (suc i) d h = get_or-take k xs i d (omega arith)
