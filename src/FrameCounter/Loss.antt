-- ===== src/FrameCounter/Loss.antt =====
-- What `n_lost` counts once the receiver is locked, against an 8-bit counter that wraps around.
use mathlib.Core.Path.{ap₂}
use gr_ccsds.Prelude.{
  ℕ, ◌+◌, ◌-◌, ◌%◌, ◌≤◌, ◌<◌, ◌≡◌, ◌∙◌, ap, refl, some, List, [], ◌∷◌, map, ok, length, arith, ltb,
  lt→ltb, ◌==◌, if◌then◌else◌,
}
use gr_ccsds.Prelude.Int.{ℤ, pos, ◌+ℤ◌, int_laws, sub_ℕ}
use gr_ccsds.FrameCounter.Defs.{Globals, rx_callback, receive}
use gr_ccsds.FrameCounter.Run.{
  Frame, payload, Running, last_number, lost_between, rx_callback_locked,
}

-- The frames that are missing between the numbers `p` and `f`.
abbrev pub missing : ℕ → ℕ → ℕ
missing p f = (f + 255 - p) % 256

-- How far the count falls short of them: over a wrap, one for the number 255 and one for the number
-- 0, where these are not the two numbers received.
abbrev pub shortfall : ℕ → ℕ → ℕ
shortfall p f = if ltb p f then 0 else (if p == 255 then 0 else 1) + (if f == 0 then 0 else 1)

lost_between_lem :
    (p f : ℕ) → p < 256 → f < 256 → lost_between p f ≡ pos (missing p f - shortfall p f)
unfolding ◌+ℤ◌
lost_between_lem p f hp hf = ground arith

shortfall-le-missing : (p f : ℕ) → p < 256 → f < 256 → shortfall p f ≤ missing p f
shortfall-le-missing p f hp hf = ground arith

-- A locked receiver that has seen the number `p` and now sees `f`, both of 8 bits, adds to `n_lost`
-- the number of frames missing between them modulo 256, less the shortfall: nothing if the counter
-- did not wrap, and otherwise one for each of 255 and 0 that was not itself received. It stays
-- locked, remembers `f` and counts the frame.
pub rx_callback_loss :
    (p : ℕ) (f : Frame) (g : Globals) (r : Running p 3 g)
    → p < 256
    → f.number < 256
    → (rx_callback (payload f) g
        ≡ ok (record {
          n_rcvd = g.n_rcvd + 1;
          n_lost = some (r.count +ℤ pos (missing p f.number - shortfall p f.number));
          p_frameno = some f.number;
          lock = some 3;
        }))
      × (shortfall p f.number ≤ missing p f.number)
rx_callback_loss p f g r hp hf = (
  rw (← lost_between_lem p f.number hp hf) (rx_callback_locked p 3 f g r (omega arith)),
  shortfall-le-missing p f.number hp hf,
)

-- Each number is above the one before it, so the counter does not wrap.
abbrev pub Ascending : ℕ → List Frame → Type 0
Ascending p [] = Unit
Ascending p (f ∷ fs) = (p < f.number) × Ascending f.number fs

last_number_ge : (p : ℕ) (fs : List Frame) → Ascending p fs → p + length fs ≤ last_number p fs
last_number_ge p [] h = omega arith
last_number_ge p (f ∷ fs) h = omega (arith, last_number_ge f.number fs h.1)

gap_add :
    (c : ℤ) (p n l k : ℕ)
    → p < n
    → n + k ≤ l
    → c +ℤ sub_ℕ n (p + 1) +ℤ pos (l - n - k) ≡ c +ℤ pos (l - p - (k + 1))
gap_add c p n l k h h' =
    let e : sub_ℕ n (p + 1) ≡ pos (n - (p + 1)) = ground arith in rw e (omega int_laws)

lost_ahead : (p f : ℕ) → p < f → lost_between p f ≡ sub_ℕ f (p + 1)
lost_ahead p f h = rw (lt→ltb p f h) refl

abbrev locked_state : ℕ → ℤ → ℕ → Globals
locked_state n c p = record { n_rcvd = n; n_lost = some c; p_frameno = some p; lock = some 3 }

locked_state_lem : (p : ℕ) (g : Globals) (r : Running p 3 g) → g ≡ locked_state g.n_rcvd r.count p
locked_state_lem p g r = ground arith

nothing_lost : (c : ℤ) (p : ℕ) → c ≡ c +ℤ pos (p - p - 0)
nothing_lost c p = omega int_laws

-- Over any stretch of frames in which the counter does not wrap, a locked receiver counts the lost
-- frames exactly: the numbers passed since `p` less the frames received.
pub receive_exact :
    (p : ℕ) (fs : List Frame) (g : Globals) (r : Running p 3 g)
    → Ascending p fs
    → receive (map payload fs) g
      ≡ ok (record {
        n_rcvd = g.n_rcvd + length fs;
        n_lost = some (r.count +ℤ pos (last_number p fs - p - length fs));
        p_frameno = some (last_number p fs);
        lock = some 3;
      })
unfolding receive
receive_exact p [] g r h = ap ok (
    locked_state_lem p g r ∙ ap₂ (λ n c. locked_state n c p) (omega arith) (nothing_lost r.count p))
receive_exact p (f ∷ fs) g r h =
    let g₁ = locked_state (g.n_rcvd + 1) (r.count +ℤ lost_between p f.number) f.number in
    let r₁ : Running f.number 3 g₁ = record {
      received = omega arith;
      number = refl;
      locked = refl;
      count = r.count +ℤ lost_between p f.number;
      lost = refl;
    } in
    let sum : r.count
          +ℤ lost_between p f.number
          +ℤ pos (last_number f.number fs - f.number - length fs)
        ≡ r.count +ℤ pos (last_number f.number fs - p - (length fs + 1)) =
      ap (λ d. r.count +ℤ d +ℤ pos (last_number f.number fs - f.number - length fs))
        (lost_ahead p f.number h.0)
      ∙ gap_add r.count p f.number (last_number f.number fs) (length fs) h.0
          (last_number_ge f.number fs h.1) in
    rw (rx_callback_locked p 3 f g r (omega arith)) (
      receive_exact f.number fs g₁ r₁ h.1
      ∙ ap₂ (λ n c. ok (locked_state n c (last_number f.number fs))) (omega arith)
          (sum ∙ ap (λ k. r.count +ℤ pos (last_number f.number fs - p - k)) (omega arith)))
