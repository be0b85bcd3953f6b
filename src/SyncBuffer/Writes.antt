-- ===== src/SyncBuffer/Writes.antt =====
-- What the loops over the arrays leave at each index.
use mathlib.Core.Path.{ap₂}
use gr_ccsds.Prelude.{
  ℕ, zero, suc, ◌+◌, ◌≤◌, ◌<◌, ◌≡◌, refl, sym, ap, ◌∙◌, ◌⊎◌, inl, inr, List, [], ◌∷◌, length,
  length-append, length-drop, length-take, length-set, get_or, set, take, drop, arith,
}
use gr_ccsds.Prelude.Access.{get_or-set_self, get_or-set_ne, get_or-append_left, get_or-drop}
use gr_ccsds.SyncBuffer.Defs.{write, fill, samples_at, rotate}

module _ {ℓ} {A : Type ℓ} where
  pub length-write : (i : ℕ) (vs xs : List A) → length (write i vs xs) ≡ length xs
  unfolding write
  length-write i [] xs = refl
  length-write i (v ∷ vs) xs = length-write (i + 1) vs (set xs i v) ∙ length-set xs i v

  pub get_or-write_before :
      (i : ℕ) (vs xs : List A) (j : ℕ) (d : A) → j < i → get_or (write i vs xs) j d ≡ get_or xs j d
  unfolding write
  get_or-write_before i [] xs j d h = refl
  get_or-write_before i (v ∷ vs) xs j d h =
      get_or-write_before (i + 1) vs (set xs i v) j d (omega arith)
      ∙ get_or-set_ne xs i j v d (λ e. omega arith)

  pub get_or-write :
      (i : ℕ) (vs xs : List A) (k : ℕ) (d : A)
      → k < length vs
      → i + length vs ≤ length xs
      → get_or (write i vs xs) (i + k) d ≡ get_or vs k d
  unfolding write
  get_or-write i [] xs k d h fits = absurd (omega arith)
  get_or-write i (v ∷ vs) xs zero d h fits =
      let here : i + 0 ≡ i = omega arith in
      rw here (
        get_or-write_before (i + 1) vs (set xs i v) i d (omega arith)
        ∙ get_or-set_self xs i v d (omega arith))
  get_or-write i (v ∷ vs) xs (suc k) d h fits =
      let next : i + suc k ≡ i + 1 + k = omega arith in
      rw next
        (get_or-write (i + 1) vs (set xs i v) k d (omega arith) (omega (arith, length-set xs i v)))

  pub length-fill : (f : ℕ → A) (i k : ℕ) (xs : List A) → length (fill f i k xs) ≡ length xs
  unfolding fill
  length-fill f i zero xs = refl
  length-fill f i (suc k) xs = length-fill f (i + 1) k (set xs i (f i)) ∙ length-set xs i (f i)

  pub get_or-fill_outside :
      (f : ℕ → A) (i k : ℕ) (xs : List A) (j : ℕ) (d : A)
      → (j < i) ⊎ (i + k ≤ j)
      → get_or (fill f i k xs) j d ≡ get_or xs j d
  unfolding fill
  get_or-fill_outside f i zero xs j d h = refl
  get_or-fill_outside f i (suc k) xs j d (inl h) =
      get_or-fill_outside f (i + 1) k (set xs i (f i)) j d (inl (omega arith))
      ∙ get_or-set_ne xs i j (f i) d (λ e. omega arith)
  get_or-fill_outside f i (suc k) xs j d (inr h) =
      get_or-fill_outside f (i + 1) k (set xs i (f i)) j d (inr (omega arith))
      ∙ get_or-set_ne xs i j (f i) d (λ e. omega arith)

  pub get_or-fill :
      (f : ℕ → A) (i k : ℕ) (xs : List A) (j : ℕ) (d : A)
      → j < k
      → i + j < length xs
      → get_or (fill f i k xs) (i + j) d ≡ f (i + j)
  unfolding fill
  get_or-fill f i zero xs j d h fits = absurd (omega arith)
  get_or-fill f i (suc k) xs zero d h fits =
      let here : i + 0 ≡ i = omega arith in
      rw here (
        get_or-fill_outside f (i + 1) k (set xs i (f i)) i d (inl (omega arith))
        ∙ get_or-set_self xs i (f i) d (omega arith))
  get_or-fill f i (suc k) xs (suc j) d h fits =
      let next : i + suc j ≡ i + 1 + j = omega arith in
      rw next (
        get_or-fill f (i + 1) k (set xs i (f i)) j d (omega arith)
          (omega (arith, length-set xs i (f i))))

  pub length-rotate : (k : ℕ) (xs : List A) → length (rotate k xs) ≡ length xs
  length-rotate k xs =
      omega (arith, length-append (drop k xs) (take k xs), length-drop k xs, length-take k xs)

  pub get_or-rotate :
      (k : ℕ) (xs : List A) (i : ℕ) (d : A)
      → k + i < length xs
      → get_or (rotate k xs) i d ≡ get_or xs (k + i) d
  get_or-rotate k xs i d h =
      get_or-append_left (drop k xs) (take k xs) i d (omega (arith, length-drop k xs))
      ∙ get_or-drop k xs i d

  -- Lists that agree on the indices give the same items there.
  pub samples_at-ext :
      (d : A) (i j k : ℕ) (xs ys : List A)
      → ((m : ℕ) → m < k → get_or xs (i + m) d ≡ get_or ys (j + m) d)
      → samples_at d i k xs ≡ samples_at d j k ys
  unfolding samples_at
  samples_at-ext d i j zero xs ys h = refl
  samples_at-ext d i j (suc k) xs ys h =
      ap₂ ◌∷◌ (first (h 0 (omega arith)))
        (samples_at-ext d (i + 1) (j + 1) k xs ys (λ m lt. later m (h (suc m) (omega arith))))
    where
      first : get_or xs (i + 0) d ≡ get_or ys (j + 0) d → get_or xs i d ≡ get_or ys j d
      first e =
          let at_i : i + 0 ≡ i = omega arith in
          let at_j : j + 0 ≡ j = omega arith in
          ap (λ n. get_or xs n d) (sym at_i) ∙ e ∙ ap (λ n. get_or ys n d) at_j

      later :
          (m : ℕ)
          → get_or xs (i + suc m) d ≡ get_or ys (j + suc m) d
          → get_or xs (i + 1 + m) d ≡ get_or ys (j + 1 + m) d
      later m e =
          let at_i : i + suc m ≡ i + 1 + m = omega arith in
          let at_j : j + suc m ≡ j + 1 + m = omega arith in
          ap (λ n. get_or xs n d) (sym at_i) ∙ e ∙ ap (λ n. get_or ys n d) at_j
