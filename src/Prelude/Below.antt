-- ===== src/Prelude/Below.antt =====
-- A Boolean test that is run for all numbers below a bound.
use gr_ccsds.Prelude.{
  ℕ, zero, suc, ◌<◌, ◌≡◌, ap, ◌∙◌, Bool, true, ◌&&◌, &&-eq-true, Bool-cases, inl, inr, ◌==◌, ==_iff,
  arith,
}

-- The test holds of all numbers below the bound.
unfoldable pub all_below : ℕ → (ℕ → Bool) → Bool
all_below zero p = true
all_below (suc n) p = p n && all_below n p

pub all_below_sound : (n : ℕ) (p : ℕ → Bool) (k : ℕ) → all_below n p ≡ true → k < n → p k ≡ true
unfolding all_below
all_below_sound zero p k h lt = absurd (omega arith)
all_below_sound (suc n) p k h lt =
    let (here, below) = &&-eq-true (p n) (all_below n p) h in
    elim (Bool-cases (k == n)) [
      | inl e ↦ ap p ((==_iff k n).0 e) ∙ here
      | inr e ↦ all_below_sound n p k below (ground (arith, e, lt))
    ]
