-- ===== src/FrameCounter/Run.antt =====
-- The callback over a sequence of frames: the state it reaches, and that no global is read before it
-- is set.
use mathlib.Core.Logic.{◌⊎◌, inl, inr}
use native.Mathlib.Decide.{dec_lt}
use gr_ccsds.Prelude.{
  ℕ, ◌+◌, ◌≤◌, ◌<◌, ◌≡◌, refl, ap, sym, some, List, [], ◌∷◌, map, Text, All, Result, ok, err,
  struct_error, length, arith, ltb, lt→ltb, ltb→lt, ==_iff, ◌==◌, if◌then◌else◌, Bool-cases, true,
  false,
}
use gr_ccsds.Prelude.Int.{ℤ, pos, sub_ℕ, ◌+ℤ◌, int_laws, +ℤ_assoc}
use gr_ccsds.FrameCounter.Defs.{Globals, initial, count_lost, account, rx_callback, receive}

-- A payload that holds a frame number, taken apart: two bytes, the number, and the rest.
pub record Frame : Type 0 where
  pub first : ℕ
  pub second : ℕ
  pub number : ℕ
  pub rest : Text

abbrev pub payload : Frame → Text
payload f = f.first ∷ f.second ∷ f.number ∷ f.rest

-- After the first frame: the last number is `p`, the lock counter is `k`, and all globals are set.
pub record Running (p k : ℕ) (g : Globals) : Type 0 where
  pub received : 0 < g.n_rcvd
  pub number : g.p_frameno ≡ some p
  pub locked : g.lock ≡ some k
  pub count : ℤ
  pub lost : g.n_lost ≡ some count

abbrev pub next_lock : ℕ → ℕ → ℕ → ℕ
next_lock p k f = if ltb k 3 then (if f == p + 1 then k + 1 else 0) else k

-- The lock counter after more frames.
unfoldable pub lock_from : ℕ → ℕ → List Frame → ℕ
lock_from p k [] = k
lock_from p k (f ∷ fs) = lock_from f.number (next_lock p k f.number) fs

abbrev pub last_number : ℕ → List Frame → ℕ
last_number p [] = p
last_number p (f ∷ fs) = last_number f.number fs

-- What the branches for a locked receiver add up to, whatever the two numbers are.
abbrev pub lost_between : ℕ → ℕ → ℤ
lost_between p f =
    if ltb p f
    then sub_ℕ f (p + 1)
    else (if p == 255 then pos 0 else sub_ℕ 254 p) +ℤ (if ltb 0 f then sub_ℕ f 1 else pos 0)

+ℤ_zero : (c : ℤ) → c +ℤ pos 0 ≡ c
+ℤ_zero c = omega int_laws

zero-+ℤ : (c : ℤ) → pos 0 +ℤ c ≡ c
zero-+ℤ c = omega int_laws

no_gap : (p : ℕ) → sub_ℕ (p + 1) (p + 1) ≡ pos 0
no_gap p = ground arith

count_lost_ahead :
    (f p : ℕ) (g : Globals) (c : ℤ)
    → g.n_lost ≡ some c
    → p < f
    → count_lost f p g ≡ ok (record g { n_lost = some (c +ℤ sub_ℕ f (p + 1)) })
unfolding count_lost
count_lost_ahead f p g c e h = elim (Bool-cases (f == p + 1)) [
  | inl near ↦
      rw (lt→ltb p f h)
        (rw near (rw ((==_iff f (p + 1)).0 near, no_gap p, +ℤ_zero c) (ground arith)))
  | inr far ↦ rw (lt→ltb p f h) (rw far (rw e refl))
]

count_lost_behind :
    (f p : ℕ) (g : Globals) (c : ℤ)
    → g.n_lost ≡ some c
    → ltb p f ≡ false
    → count_lost f p g ≡ ok (record g { n_lost = some (c +ℤ lost_between p f) })
unfolding count_lost
count_lost_behind f p g c e h = elim (Bool-cases (p == 255)) [
  | inl top ↦ elim (Bool-cases (ltb 0 f)) [
    | inl above ↦ rw (h, top, above) (rw (e, zero-+ℤ) refl)
    | inr none_above ↦ rw (h, top, none_above) (rw (zero-+ℤ, +ℤ_zero) (ground arith))
  ]
  | inr below ↦ elim (Bool-cases (ltb 0 f)) [
    | inl above ↦ rw (h, below, above) (rw e (rw (← +ℤ_assoc) refl))
    | inr none_above ↦ rw (h, below, none_above) (rw (e, +ℤ_zero) refl)
  ]
]

-- One branch for a locked receiver adds `lost_between`, and changes nothing else.
pub count_lost_lem :
    (f p : ℕ) (g : Globals) (c : ℤ)
    → g.n_lost ≡ some c
    → count_lost f p g ≡ ok (record g { n_lost = some (c +ℤ lost_between p f) })
count_lost_lem f p g c e = elim (Bool-cases (ltb p f)) [
  | inl h ↦ rw h (count_lost_ahead f p g c e (ltb→lt p f h))
  | inr h ↦ count_lost_behind f p g c e h
]

not_first : (p k : ℕ) (g : Globals) → Running p k g → (g.n_rcvd == 0) ≡ false
not_first p k g r = ground arith

account_locked : (p k f : ℕ) (g : Globals) → Running p k g → 3 ≤ k → account f g ≡ count_lost f p g
unfolding account
account_locked p k f g r h =
    let full : ltb k 3 ≡ false = ground arith in rw (not_first p k g r, r.locked, r.number, full)

account_searching :
    (p k f : ℕ) (g : Globals)
    → Running p k g
    → k < 3
    → account f g ≡ ok (record g { lock = some (next_lock p k f) })
unfolding account
account_searching p k f g r h =
    let open_lock : ltb k 3 ≡ true = lt→ltb k 3 h in
    rw (not_first p k g r, r.locked, r.number, open_lock)

-- A frame for a receiver that is locked, and for one that is not yet.
pub rx_callback_locked :
    (p k : ℕ) (f : Frame) (g : Globals) (r : Running p k g)
    → 3 ≤ k
    → rx_callback (payload f) g
      ≡ ok (record {
        n_rcvd = g.n_rcvd + 1;
        n_lost = some (r.count +ℤ lost_between p f.number);
        p_frameno = some f.number;
        lock = some k;
      })
unfolding rx_callback
rx_callback_locked p k f g r h =
    rw (account_locked p k f.number g r h, count_lost_lem f.number p g r.count r.lost)
      (rw r.locked refl)

rx_callback_searching :
    (p k : ℕ) (f : Frame) (g : Globals)
    → Running p k g
    → k < 3
    → rx_callback (payload f) g
      ≡ ok (record g {
        n_rcvd = g.n_rcvd + 1;
        p_frameno = some f.number;
        lock = some (next_lock p k f.number);
      })
unfolding rx_callback
rx_callback_searching p k f g r h = rw (account_searching p k f.number g r h) (rw r.lost refl)

next_lock_kept : (p k f : ℕ) → 3 ≤ k → next_lock p k f ≡ k
next_lock_kept p k f h = ground arith

pub rx_callback_running :
    (p k : ℕ) (f : Frame) (g : Globals)
    → Running p k g
    → (g' : Globals) × (rx_callback (payload f) g ≡ ok g')
      × Running f.number (next_lock p k f.number) g'
      × (g'.n_rcvd ≡ g.n_rcvd + 1)
rx_callback_running p k f g r = elim (dec_lt k 3) [
  | yes h ↦ (
    _,
    rx_callback_searching p k f g r h,
    record { received = omega arith; number = refl; locked = refl; count = r.count; lost = r.lost },
    refl,
  )
  | no h ↦
      let kept : next_lock p k f.number ≡ k = next_lock_kept p k f.number (omega arith) in
      (
        _,
        rx_callback_locked p k f g r (omega arith),
        record {
          received = omega arith;
          number = refl;
          locked = ap some (sym kept);
          count = r.count +ℤ lost_between p f.number;
          lost = refl;
        },
        refl,
      )
]

-- From there on every frame with a number is accounted for.
pub receive_running :
    (p k : ℕ) (fs : List Frame) (g : Globals)
    → Running p k g
    → (g' : Globals) × (receive (map payload fs) g ≡ ok g')
      × Running (last_number p fs) (lock_from p k fs) g'
      × (g'.n_rcvd ≡ g.n_rcvd + length fs)
unfolding receive lock_from
receive_running p k [] g r = (g, refl, r, omega arith)
receive_running p k (f ∷ fs) g r =
    let (g₁, e₁, r₁, n₁) = rx_callback_running p k f g r in
    let (g₂, e₂, r₂, n₂) = receive_running f.number (next_lock p k f.number) fs g₁ r₁ in
    (g₂, rw e₁ e₂, r₂, omega arith)

-- The first frame sets every global.
pub rx_callback_first :
    (f : Frame)
    → (g : Globals) × (rx_callback (payload f) initial ≡ ok g)
      × Running f.number 0 g
      × (g.n_rcvd ≡ 1)
unfolding rx_callback account
rx_callback_first f = (
  _,
  refl,
  record { received = omega arith; number = refl; locked = refl; count = pos 0; lost = refl },
  refl,
)

abbrev pub IsLong : Text → Type 0
IsLong t = 3 ≤ length t

frame_of : (t : Text) → IsLong t → (f : Frame) × (t ≡ payload f)
frame_of [] h = absurd (omega arith)
frame_of (a ∷ []) h = absurd (omega arith)
frame_of (a ∷ b ∷ []) h = absurd (omega arith)
frame_of (a ∷ b ∷ n ∷ t) h = (record { first = a; second = b; number = n; rest = t }, refl)

rx_callback_short : (t : Text) (g : Globals) → length t < 3 → rx_callback t g ≡ err struct_error
unfolding rx_callback
rx_callback_short [] g h = refl
rx_callback_short (a ∷ []) g h = refl
rx_callback_short (a ∷ b ∷ []) g h = refl
rx_callback_short (a ∷ b ∷ n ∷ t) g h = absurd (omega arith)

-- The outcome of a sequence of payloads: the callback has counted them all, or one of them is too
-- short to hold a number.
abbrev pub Outcome : List Text → ℕ → Result Globals → Type 0
Outcome ps n r =
    (All IsLong ps × (g : Globals) × (r ≡ ok g) × (g.n_rcvd ≡ n))
    ⊎ ((¬ All IsLong ps) × (r ≡ err struct_error))

receive-Outcome :
    (p k : ℕ) (ps : List Text) (g : Globals)
    → Running p k g
    → Outcome ps (g.n_rcvd + length ps) (receive ps g)
unfolding receive
receive-Outcome p k [] g r = inl (tt, g, refl, omega arith)
receive-Outcome p k (t ∷ ps) g r = elim (dec_lt (length t) 3) [
  | yes short ↦ inr (λ all. absurd (omega arith), rw (rx_callback_short t g short) refl)
  | no long ↦
      let (f, e) = frame_of t (omega arith) in
      let (g₁, e₁, r₁, n₁) = rx_callback_running p k f g r in
      rw (e, e₁)
        (elim (receive-Outcome f.number (next_lock p k f.number) ps g₁ r₁) [
          | inl (all, g₂, e₂, n₂) ↦ inl ((omega arith, all), g₂, e₂, omega arith)
          | inr (some_short, e₂) ↦ inr (λ all. some_short all.1, e₂)
        ])
]

-- From the start, whatever the payloads: if each holds at least three bytes the callback counts every
-- one of them, and otherwise it ends in struct.error. No sequence of payloads reads an undefined
-- global, although `main` sets only one of the four.
pub receive_total : (ps : List Text) → Outcome ps (length ps) (receive ps initial)
unfolding receive
receive_total [] = inl (tt, initial, refl, refl)
receive_total (t ∷ ps) = elim (dec_lt (length t) 3) [
  | yes short ↦ inr (λ all. absurd (omega arith), rw (rx_callback_short t initial short) refl)
  | no long ↦
      let (f, e) = frame_of t (omega arith) in
      let (g₁, e₁, r₁, n₁) = rx_callback_first f in
      rw (e, e₁)
        (elim (receive-Outcome f.number 0 ps g₁ r₁) [
          | inl (all, g₂, e₂, n₂) ↦ inl ((omega arith, all), g₂, e₂, omega arith)
          | inr (some_short, e₂) ↦ inr (λ all. some_short all.1, e₂)
        ])
]
