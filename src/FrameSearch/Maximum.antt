-- ===== src/FrameSearch/Maximum.antt =====
-- findMaximumInBuffer() of lib/frame_sync_impl.cc against what it searches for.
use gr_ccsds.Prelude.{
  ℕ, zero, suc, ◌+◌, ◌-◌, ◌≤◌, ◌<◌, ◌≡◌, refl, sym, ap, ◌∙◌, subst, inl, inr, true, false, Bool,
  Bool-cases, ok, runtime_error, >>=-eq-ok, ok-injective, guarded-eq-ok, if-intro, ltb, arith,
}
use gr_ccsds.SyncBuffer.Defs.{SyncBuffer, history_len, overlap_len, samples_at, correlation_window}
use gr_ccsds.SyncBuffer.Queries.{energy_window_ptr}
use gr_ccsds.SyncBuffer.Holds.{index_cases}
use gr_ccsds.FrameSearch.Tasks.{Radio, AsmPosition, Config}
use gr_ccsds.FrameSearch.Search.{
  Best, first_best, update_best, window_score, find_loop, find_maximum,
}

-- How the numbers of C++ compare: of two at most one is greater, and among finite ones "not greater" is
-- transitive.
pub record Compares (R : Radio) : Type 0 where
  pub asymmetric : (x y : R.Float) → R.greater x y ≡ true → R.greater y x ≡ false
  pub transitive :
      (x y z : R.Float)
      → R.is_finite x ≡ true
      → R.is_finite y ≡ true
      → R.is_finite z ≡ true
      → R.greater x y ≡ false
      → R.greater y z ≡ false
      → R.greater x z ≡ false

irreflexive : {R : Radio} (laws : Compares R) (x : R.Float) → R.greater x x ≡ false
irreflexive {R} laws x = elim (Bool-cases (R.greater x x)) [
  | inl e ↦ laws.asymmetric x x e
  | inr e ↦ e
]

-- The score of an index of the window.
abbrev pub score_at : (R : Radio) → Config → SyncBuffer R.dsp → ℕ → R.Float
score_at R c b i =
    window_score R b (samples_at R.dsp.no_energy (history_len b.lengths + i) c.asm_len b.energy) i

find_loop-step :
    {R : Radio} (c : Config) (b : SyncBuffer R.dsp) (i k : ℕ) (m last : Best R)
    → find_loop R c b i (suc k) m ≡ ok last
    → find_loop R c b
        (suc i)
        k
        (update_best {R = R} i (score_at R c b i) (correlation_window b i) m)
      ≡ ok last
unfolding find_loop energy_window_ptr
find_loop-step {R} c b i k m last e =
    let (energies, read, rest) = >>=-eq-ok (energy_window_ptr b i c.asm_len) _ e in
    let (inside, same) =
      guarded-eq-ok (ltb (b.lengths.block_len + overlap_len b.lengths) (i + c.asm_len))
        runtime_error _ read in
    let next : i + 1 ≡ suc i = omega arith in
    subst
      (λ n.
        find_loop R c b n k (update_best {R = R} i (score_at R c b i) (correlation_window b i) m)
        ≡ ok last)
      next
      (subst
        (λ es.
          find_loop R c b (i + 1) k
            (update_best {R = R} i (window_score R b es i) (correlation_window b i) m)
          ≡ ok last)
        (sym same) rest)

module _ {R : Radio} (c : Config) (b : SyncBuffer R.dsp) (laws : Compares R) where
  -- The index is the first with the largest score below the bound.
  pub record Leads (n k : ℕ) : Type 0 where
    pub inside : k < n
    pub largest : (j : ℕ) → j < n → R.greater (score_at R c b j) (score_at R c b k) ≡ false
    pub first : (j : ℕ) → j < k → R.greater (score_at R c b k) (score_at R c b j) ≡ true

  -- The loop has seen one index at least.
  record Seen (n : ℕ) (m : Best R) : Type 0 where
    set : m.initialized ≡ true
    leads : Leads n m.max_index
    score : m.max_score ≡ score_at R c b m.max_index
    correlation : m.max_correlation ≡ correlation_window b m.max_index

  old_leader :
      (n k : ℕ)
      → Leads n k
      → R.greater (score_at R c b n) (score_at R c b k) ≡ false
      → Leads (suc n) k
  old_leader n k h worse = record {
    inside = omega (arith, h.inside);
    largest = λ j lt. elim (index_cases j n) [
      | inl before ↦ h.largest j before
      | inr (i, e) ↦ let same : j ≡ n = omega arith in rw same worse
    ];
    first = h.first;
  }

  first_Seen :
      Seen 1 (update_best {R = R} 0 (score_at R c b 0) (correlation_window b 0) (first_best R))
  unfolding update_best
  first_Seen = record {
    set = refl;
    leads = record {
      inside = omega arith;
      largest =
          λ j lt. let same : j ≡ 0 = omega arith in rw same (irreflexive laws (score_at R c b 0));
      first = λ j lt. absurd (omega arith);
    };
    score = refl;
    correlation = refl;
  }

  module _ (bound : ℕ) (finite : (i : ℕ) → i < bound → R.is_finite (score_at R c b i) ≡ true) where
    new_leader :
        (n k : ℕ)
        → n < bound
        → Leads n k
        → R.greater (score_at R c b n) (score_at R c b k) ≡ true
        → Leads (suc n) n
    new_leader n k below h better =
        let s = score_at R c b in
        record {
          inside = omega arith;
          largest = λ j lt. elim (index_cases j n) [
            | inl before ↦
                laws.transitive (s j) (s k) (s n) (finite j (omega arith))
                  (finite k (omega (arith, h.inside))) (finite n below) (h.largest j before)
                  (laws.asymmetric (s n) (s k) better)
            | inr (i, e) ↦ let same : j ≡ n = omega arith in rw same (irreflexive laws (s n))
          ];
          first = λ j lt. elim (Bool-cases (R.greater (s n) (s j))) [
            | inl e ↦ e
            | inr e ↦ absurd (
                clash
                  (laws.transitive (s n) (s j) (s k) (finite n below)
                    (finite j (omega (arith, h.inside))) (finite k (omega (arith, h.inside))) e
                    (h.largest j lt))
                  better)
          ];
        }
      where
        clash : {x : Bool} → x ≡ false → x ≡ true → ⊥
        clash p q = cc

    update_best-Seen :
        (n : ℕ) (m : Best R)
        → n < bound
        → Seen n m
        → Seen (suc n) (update_best {R = R} n (score_at R c b n) (correlation_window b n) m)
    unfolding update_best
    update_best-Seen n m below h =
        let here = finite n below in
        let there = ap R.is_finite h.score ∙ finite m.max_index (omega (arith, h.leads.inside)) in
        let compared = ap (R.greater (score_at R c b n)) h.score in
        if-intro (Seen (suc n)) _ _ m
          (λ better. record {
            set = refl;
            leads =
                new_leader n m.max_index below h.leads
                  (ground (arith, here, there, compared, h.set));
            score = refl;
            correlation = refl;
          })
          (λ worse. record {
            set = h.set;
            leads = old_leader n m.max_index h.leads (ground (arith, here, there, compared, h.set));
            score = h.score;
            correlation = h.correlation;
          })

    find_loop-Seen :
        (i k : ℕ) (m last : Best R)
        → i + k ≤ bound
        → find_loop R c b i k m ≡ ok last
        → Seen i m
        → Seen (i + k) last
    unfolding find_loop
    find_loop-Seen i zero m last fits e h =
        let here : i ≡ i + 0 = omega arith in
        subst (λ n. Seen n last) here (subst (Seen i) (ok-injective e) h)
    find_loop-Seen i (suc k) m last fits e h =
        let next : suc i + k ≡ i + suc k = omega arith in
        subst (λ n. Seen n last) next
          (find_loop-Seen (suc i) k _ last (omega arith) (find_loop-step c b i k m last e)
            (update_best-Seen i m (omega arith) h))

    -- Where floats compare as in C++, the scores of the window's first `bound` indices are finite, and
    -- there is one at least: the position that is found is that of the first index with the largest
    -- score, at the offset of the window, and its ambiguity is the one detected in the correlation at
    -- that index.
    pub find_maximum-Leads :
        (info : AsmPosition)
        → 0 < bound
        → find_maximum R c b bound ≡ ok info
        → (k : ℕ) × Leads bound k
          × (info.offset ≡ b.offset_counter + k)
          × (info.ambiguity ≡ R.detect_ambiguity (correlation_window b k))
    unfolding find_maximum
    find_maximum-Leads info some e =
        let (best, loop, same) = >>=-eq-ok (find_loop R c b 0 bound (first_best R)) _ e in
        let more : bound ≡ suc (bound - 1) = omega arith in
        let whole : 1 + (bound - 1) ≡ bound = omega arith in
        let seen =
          subst (λ n. Seen n best) whole
            (find_loop-Seen 1 (bound - 1) _ best (omega arith)
              (find_loop-step c b 0 (bound - 1) (first_best R) best
                (subst (λ n. find_loop R c b 0 n (first_best R) ≡ ok best) more loop))
              first_Seen) in
        (
          best.max_index,
          seen.leads,
          sym (ap (λ (p : AsmPosition). p.offset) (ok-injective same)),
          sym (ap (λ (p : AsmPosition). p.ambiguity) (ok-injective same))
              ∙ ap R.detect_ambiguity seen.correlation,
        )
