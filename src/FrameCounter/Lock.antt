-- ===== src/FrameCounter/Lock.antt =====
-- When the receiver locks.
use mathlib.Core.Path.{subst}
use gr_ccsds.Prelude.{
  ℕ, ◌+◌, ◌≡◌, ◌↔◌, refl, sym, ap, ◌∙◌, some, ◌++◌, inl, inr, Bool, true, false, ◌&&◌, ◌||◌, List,
  [], ◌∷◌, map, ok, arith, ◌==◌, ==_iff, Bool-cases,
}
use gr_ccsds.FrameCounter.Defs.{Globals, receive, initial}
use gr_ccsds.FrameCounter.Run.{Frame, payload, lock_from, receive_running, rx_callback_first}

-- Somewhere in the sequence stand four numbers of which each is one above the number before it.
unfoldable pub has_run : List ℕ → Bool
has_run (a ∷ b ∷ c ∷ d ∷ ns) =
    ((b == a + 1) && (c == b + 1) && (d == c + 1)) || has_run (b ∷ c ∷ d ∷ ns)
has_run _ = false

break_first :
    (a b : ℕ) (ns : List ℕ) → (b == a + 1) ≡ false → has_run (a ∷ b ∷ ns) ≡ has_run (b ∷ ns)
unfolding has_run
break_first a b [] h = refl
break_first a b (c ∷ []) h = refl
break_first a b (c ∷ d ∷ ns) h = rw h refl

break_second :
    (a b c : ℕ) (ns : List ℕ) → (c == b + 1) ≡ false → has_run (a ∷ b ∷ c ∷ ns) ≡ has_run (c ∷ ns)
unfolding has_run
break_second a b c [] h = refl
break_second a b c (d ∷ ns) h = ground (arith, break_first b c (d ∷ ns) h)

break_third :
    (a b c d : ℕ) (ns : List ℕ)
    → (d == c + 1) ≡ false
    → has_run (a ∷ b ∷ c ∷ d ∷ ns) ≡ has_run (d ∷ ns)
unfolding has_run
break_third a b c d ns h = ground (arith, break_second b c d ns h)

run_complete :
    (a b c d : ℕ) (ns : List ℕ)
    → b ≡ a + 1
    → c ≡ b + 1
    → d ≡ c + 1
    → has_run (a ∷ b ∷ c ∷ d ∷ ns) ≡ true
unfolding has_run
run_complete a b c d ns p q r = ground arith

abbrev pub numbers : List Frame → List ℕ
numbers = map (λ f. f.number)

locked_stays : (p : ℕ) (fs : List Frame) → lock_from p 3 fs ≡ 3
unfolding lock_from
locked_stays p [] = refl
locked_stays p (f ∷ fs) = locked_stays f.number fs

some_inj : {a b : ℕ} → some a ≡ some b → a ≡ b
some_inj h = cc

-- The lock counter is the length of the run that ends in the last number, until it is 3.
abbrev Tracks : ℕ → ℕ → List ℕ → List Frame → Type 0
Tracks p k before fs = (lock_from p k fs == 3) ≡ has_run (before ++ numbers fs)

module _ (f : Frame) (fs : List Frame) where
  track_zero :
      (p : ℕ)
      → Tracks f.number 0 (f.number ∷ []) fs
      → Tracks (p + 1) 1 (p ∷ (p + 1) ∷ []) fs
      → Tracks p 0 (p ∷ []) (f ∷ fs)
  unfolding lock_from
  track_zero p broken longer = elim (Bool-cases (f.number == p + 1)) [
    | inl e ↦
        let same : f.number ≡ p + 1 = (==_iff f.number (p + 1)).0 e in
        rw e (subst (λ n. Tracks n 1 (p ∷ n ∷ []) fs) (sym same) longer)
    | inr e ↦ rw e (broken ∙ sym (break_first p f.number (numbers fs) e))
  ]

  track_one :
      (p : ℕ)
      → Tracks f.number 0 (f.number ∷ []) fs
      → Tracks (p + 1 + 1) 2 (p ∷ (p + 1) ∷ (p + 1 + 1) ∷ []) fs
      → Tracks (p + 1) 1 (p ∷ (p + 1) ∷ []) (f ∷ fs)
  unfolding lock_from
  track_one p broken longer = elim (Bool-cases (f.number == p + 1 + 1)) [
    | inl e ↦
        let same : f.number ≡ p + 1 + 1 = (==_iff f.number (p + 1 + 1)).0 e in
        rw e (subst (λ n. Tracks n 2 (p ∷ (p + 1) ∷ n ∷ []) fs) (sym same) longer)
    | inr e ↦ rw e (broken ∙ sym (break_second p (p + 1) f.number (numbers fs) e))
  ]

  track_two :
      (p : ℕ)
      → Tracks f.number 0 (f.number ∷ []) fs
      → Tracks (p + 1 + 1) 2 (p ∷ (p + 1) ∷ (p + 1 + 1) ∷ []) (f ∷ fs)
  unfolding lock_from
  track_two p broken = elim (Bool-cases (f.number == p + 1 + 1 + 1)) [
    | inl e ↦
        let same : f.number ≡ p + 1 + 1 + 1 = (==_iff f.number (p + 1 + 1 + 1)).0 e in
        rw (e, locked_stays f.number fs)
          (sym (run_complete p (p + 1) (p + 1 + 1) f.number (numbers fs) refl refl same))
    | inr e ↦ rw e (broken ∙ sym (break_third p (p + 1) (p + 1 + 1) f.number (numbers fs) e))
  ]

track :
    (fs : List Frame) (p : ℕ)
    → Tracks p 0 (p ∷ []) fs
      × Tracks (p + 1) 1 (p ∷ (p + 1) ∷ []) fs
      × Tracks (p + 1 + 1) 2 (p ∷ (p + 1) ∷ (p + 1 + 1) ∷ []) fs
unfolding lock_from has_run
track [] p = (refl, refl, refl)
track (f ∷ fs) p =
    let (broken, _, _) = track fs f.number in
    let (_, one, two) = track fs p in
    (track_zero f fs p broken one, track_one f fs p broken two, track_two f fs p broken)

-- From the start the callback accepts any sequence of frames, and the receiver is then locked exactly
-- when somewhere in the sequence stand four frames of which each has the number of the one before it
-- plus one.
pub receive-lock :
    (f : Frame) (fs : List Frame)
    → (g : Globals) × (receive (map payload (f ∷ fs)) initial ≡ ok g)
      × ((g.lock ≡ some 3) ↔ (has_run (numbers (f ∷ fs)) ≡ true))
unfolding receive
receive-lock f fs =
    let (g₁, e₁, r₁, _) = rx_callback_first f in
    let (g₂, e₂, r₂, _) = receive_running f.number 0 fs g₁ r₁ in
    let (tracked, _, _) = track fs f.number in
    (
      g₂,
      rw e₁ e₂,
      (
        (λ h. sym tracked ∙ (==_iff _ 3).1 (some_inj (sym r₂.locked ∙ h))),
        (λ h. r₂.locked ∙ ap some ((==_iff _ 3).0 (tracked ∙ h))),
      ),
    )
