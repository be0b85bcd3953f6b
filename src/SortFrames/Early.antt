-- ===== src/SortFrames/Early.antt =====
-- The block as long as all frame numbers are below the length of the window: it sends nothing before it
-- is flushed, and keeps all frames that it is to keep.
use gr_ccsds.Prelude.{
  ℕ, zero, suc, ◌+◌, ◌-◌, ◌≤◌, ◌<◌, ◌≡◌, ◌≢◌, refl, sym, ap, subst, ◌∙◌, inl, inr, Bool, false,
  Bool-cases, List, [], ◌++◌, leb, ◌==◌, ==_iff, if◌then◌else◌, arith,
}
use gr_ccsds.Pdu.Message.{Message}
use gr_ccsds.SortFrames.Defs.{
  Duplicates, no_duplicates, SortFrames, get_duplicates, put_duplicates, send_frame,
  advance_storage, next_frame, advance,
}
use gr_ccsds.SortFrames.Storage.{
  WellFormed, put_duplicates-WellFormed, get_duplicates-put_self, get_duplicates-put_ne, moved,
  moved-WellFormed, get_duplicates-moved, get_duplicates-moved_current,
}

-- The slots hold what `v` has for each frame number, and the window has not moved past any frame yet.
pub record Holds (s : SortFrames) (v : ℕ → Duplicates) : Type 0 where
  pub well_formed : WellFormed s
  pub early : s.current_frame < s.config.window
  pub agree : (n : ℕ) → n ≤ s.current_frame → get_duplicates s n ≡ v n
  pub beyond : (n : ℕ) → s.current_frame < n → v n ≡ no_duplicates

next_frame-early :
    (s : SortFrames) → s.current_frame < s.config.window → next_frame s ≡ (moved s, [])
unfolding next_frame
next_frame-early s h =
    let test : leb s.config.window s.current_frame ≡ false = ground arith in ap (by_test s) test
  where
    by_test : SortFrames → Bool → SortFrames × List Message
    by_test s b =
        let r : SortFrames × List Message =
          if b then send_frame s (s.current_frame - s.config.window) else (s, []) in
        (record (advance_storage r.0) { current_frame = s.current_frame + 1 }, r.1)

moved-Holds :
    (s : SortFrames) (v : ℕ → Duplicates)
    → s.current_frame + 1 < s.config.window
    → Holds s v
    → Holds (moved s) v
unfolding advance_storage
moved-Holds s v h holds = record {
  well_formed = record {
    whole = (moved-WellFormed s holds.well_formed).whole;
    inside = (moved-WellFormed s holds.well_formed).inside;
  };
  early = h;
  agree = λ n le. elim (Bool-cases (n == s.current_frame + 1)) [
    | inl e ↦
        let same = (==_iff n (s.current_frame + 1)).0 e in
        subst (λ k. get_duplicates (moved s) k ≡ v k) (sym same)
          (get_duplicates-moved_current s holds.well_formed
            ∙ sym (holds.beyond (s.current_frame + 1) (omega arith)))
    | inr e ↦
        get_duplicates-moved s n holds.well_formed (ground (arith, e, le)) (omega arith)
        ∙ holds.agree n (ground (arith, e, le))
  ];
  beyond = λ n lt. holds.beyond n (omega arith);
}

-- What comes of the loop: nothing is sent.
pub record Reached (s : SortFrames) (v : ℕ → Duplicates) (k : ℕ) (r : SortFrames × List Message)
    : Type 0 where
  pub holds : Holds r.0 v
  pub silent : r.1 ≡ []
  pub same_config : r.0.config ≡ s.config
  pub reached : r.0.current_frame ≡ s.current_frame + k

advance-step :
    (k : ℕ) (s : SortFrames)
    → s.current_frame < s.config.window
    → advance (suc k) s ≡ advance k (moved s)
unfolding advance
advance-step k s h = ap (go_on k) (next_frame-early s h)
  where
    go_on : ℕ → SortFrames × List Message → SortFrames × List Message
    go_on k r = ((advance k r.0).0, r.1 ++ (advance k r.0).1)

pub advance-Reached :
    (k : ℕ) (s : SortFrames) (v : ℕ → Duplicates)
    → s.current_frame + k < s.config.window
    → Holds s v
    → Reached s v k (advance k s)
unfolding advance advance_storage
advance-Reached zero s v h holds = record {
  holds = holds;
  silent = refl;
  same_config = refl;
  reached = omega arith;
}
advance-Reached (suc k) s v h holds =
    let rest = advance-Reached k (moved s) v (omega arith) (moved-Holds s v (omega arith) holds) in
    subst (Reached s v (suc k)) (sym (advance-step k s holds.early)) (record {
      holds = rest.holds;
      silent = rest.silent;
      same_config = rest.same_config;
      reached = omega (arith, rest.reached);
    })

pub put_duplicates-Holds :
    (s : SortFrames) (v w : ℕ → Duplicates) (n : ℕ)
    → n ≤ s.current_frame
    → Holds s v
    → ((k : ℕ) → k ≢ n → w k ≡ v k)
    → Holds (put_duplicates s n (w n)) w
put_duplicates-Holds s v w n le holds others = record {
  well_formed = put_duplicates-WellFormed s n (w n) holds.well_formed;
  early = holds.early;
  agree = λ k hk. elim (Bool-cases (k == n)) [
    | inl e ↦
        subst (λ k. get_duplicates (put_duplicates s n (w n)) k ≡ w k) (sym ((==_iff k n).0 e))
          (get_duplicates-put_self s n (w n) holds.well_formed)
    | inr e ↦
        let differ : k ≢ n = λ same. ground (arith, e, same) in
        get_duplicates-put_ne s n k (w n) holds.well_formed (le, omega (arith, holds.early))
          (hk, omega (arith, holds.early)) (λ same. differ (sym same))
        ∙ holds.agree k hk
        ∙ sym (others k differ)
  ];
  beyond = λ k lt. others k (λ same. omega arith) ∙ holds.beyond k lt;
}
