-- ===== src/Demod/Rates.antt =====
-- The setters that change the sample rate, with and without the two displays.
use gr_ccsds.Prelude.{◌≡◌, refl, subst, sym, none, some, true, ok, err, attribute_error}
use gr_ccsds.Demod.Defs.{Library, Demod}
use gr_ccsds.Demod.Setters.{
  Setter, omega, bit_rate, samp_rate, call, set_samp_rate, set_omega, set_bit_rate,
}
use gr_ccsds.Demod.Laws.{IsConsistent, changes_rate}

-- The sample rate that a setter is to lead to.
unfoldable pub new_rate : (l : Library) → Setter → l.Number → Demod l → l.Number
new_rate l omega v s = l.times s.bit_rate v
new_rate l bit_rate v s = l.times v s.omega
new_rate l samp_rate v s = v
new_rate l _ v s = s.samp_rate

-- The call ends in an attribute error with the new rate in the variable, and the radio and the clock
-- recovery as they were.
unfoldable pub StopsAtScope : (l : Library) → Setter → l.Number → Demod l → Type 0
StopsAtScope l c v s =
    (s' : Demod l) × (call l c v s ≡ (s', err attribute_error))
    × (s'.samp_rate ≡ new_rate l c v s)
    × (s'.source_samp_rate ≡ s.source_samp_rate)
    × (s'.clock_omega ≡ s.clock_omega)

-- On an object that has no scope, which is every object that `__init__` makes, each setter that
-- changes the sample rate ends in an attribute error: the variable has the new rate by then, but the
-- radio still has the old one and the clock recovery its old omega.
pub call_without_scope :
    (l : Library) (c : Setter) (v : l.Number) (s : Demod l)
    → changes_rate c ≡ true
    → s.scope_samp_rate ≡ none
    → StopsAtScope l c v s
unfolding StopsAtScope call new_rate set_samp_rate set_omega set_bit_rate
call_without_scope l omega v s e none_yet =
    subst (λ o. StopsAtScope l omega v (record s { scope_samp_rate = o })) (sym none_yet)
      (_, refl, refl, refl, refl)
call_without_scope l bit_rate v s e none_yet =
    subst (λ o. StopsAtScope l bit_rate v (record s { scope_samp_rate = o })) (sym none_yet)
      (_, refl, refl, refl, refl)
call_without_scope l samp_rate v s e none_yet =
    subst (λ o. StopsAtScope l samp_rate v (record s { scope_samp_rate = o })) (sym none_yet)
      (_, refl, refl, refl, refl)
call_without_scope l _ v s e none_yet = cc

-- The call returns, the object it leaves is consistent, and both displays have the sample rate.
unfoldable pub Follows : (l : Library) → Setter → l.Number → Demod l → Type 0
Follows l c v s =
    (s' : Demod l) × (call l c v s ≡ (s', ok tt))
    × (s'.samp_rate ≡ new_rate l c v s)
    × IsConsistent l s'
    × (s'.scope_samp_rate ≡ some s'.samp_rate)
    × (s'.fft_samp_rate ≡ some s'.samp_rate)

-- On a consistent object that has both displays, each setter that changes the sample rate returns,
-- leaves a consistent object, and the two displays show the new rate.
pub call_with_displays :
    (l : Library) (c : Setter) (v r₁ r₂ : l.Number) (s : Demod l)
    → changes_rate c ≡ true
    → IsConsistent l s
    → s.scope_samp_rate ≡ some r₁
    → s.fft_samp_rate ≡ some r₂
    → Follows l c v s
unfolding Follows call new_rate set_samp_rate set_omega set_bit_rate
call_with_displays l omega v r₁ r₂ s e h scope fft =
    subst (λ o. Follows l omega v (record s { scope_samp_rate = o })) (sym scope)
      (subst (λ o. Follows l omega v (record s { scope_samp_rate = some r₁; fft_samp_rate = o }))
        (sym fft)
        (
          _,
          refl,
          refl,
          record {
            rate = refl;
            center = h.center;
            gain = h.gain;
            interpolation = h.interpolation;
            low = refl;
            band = refl;
            loop = h.loop;
            clock = refl;
          },
          refl,
          refl,
        ))
call_with_displays l bit_rate v r₁ r₂ s e h scope fft =
    subst (λ o. Follows l bit_rate v (record s { scope_samp_rate = o })) (sym scope)
      (subst (λ o. Follows l bit_rate v (record s { scope_samp_rate = some r₁; fft_samp_rate = o }))
        (sym fft)
        (
          _,
          refl,
          refl,
          record {
            rate = refl;
            center = h.center;
            gain = h.gain;
            interpolation = h.interpolation;
            low = refl;
            band = refl;
            loop = h.loop;
            clock = h.clock;
          },
          refl,
          refl,
        ))
call_with_displays l samp_rate v r₁ r₂ s e h scope fft =
    subst (λ o. Follows l samp_rate v (record s { scope_samp_rate = o })) (sym scope)
      (subst
        (λ o. Follows l samp_rate v (record s { scope_samp_rate = some r₁; fft_samp_rate = o }))
        (sym fft)
        (
          _,
          refl,
          refl,
          record {
            rate = refl;
            center = h.center;
            gain = h.gain;
            interpolation = h.interpolation;
            low = refl;
            band = refl;
            loop = h.loop;
            clock = h.clock;
          },
          refl,
          refl,
        ))
call_with_displays l _ v r₁ r₂ s e h scope fft = cc
