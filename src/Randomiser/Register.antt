-- ===== src/Randomiser/Register.antt =====
-- The shift register: it stays within eight bits, and with the standard's polynomial it runs through all
-- of its 255 states.
use Prim.Native.Nat.{bit_and, bit_xor}
use gr_ccsds.Prelude.{
  ℕ, zero, suc, ◌+◌, ◌*◌, ◌/◌, ◌%◌, ◌^◌, ◌<◌, ◌≡◌, ◌≢◌, refl, ap, ◌∙◌, Bool, true, ◌&&◌, &&-eq-true,
  not, IsByte, arith, ◌==◌, ==_iff,
}
use gr_ccsds.Randomiser.Defs.{parity, shift, collect, get_next_byte}

xor_bits-lt : (a b : ℕ) → a < 2 → b < 2 → bit_xor a b < 2
xor_bits-lt zero zero ha hb = omega arith
xor_bits-lt zero (suc zero) ha hb = omega arith
xor_bits-lt (suc zero) zero ha hb = omega arith
xor_bits-lt (suc zero) (suc zero) ha hb = omega arith
xor_bits-lt (suc (suc a)) b ha hb = absurd (omega arith)
xor_bits-lt a (suc (suc b)) ha hb = absurd (omega arith)

parity-lt : (n bits : ℕ) → parity n bits < 2
unfolding parity
parity-lt zero bits = omega arith
parity-lt (suc n) bits =
    xor_bits-lt (bits % 2) (parity n (bits / 2)) (omega arith) (parity-lt n (bits / 2))

pub shift-IsByte : (poly state : ℕ) → IsByte (shift poly state)
unfolding shift
shift-IsByte poly state = omega (arith, parity-lt 8 (bit_and state poly))

collect-IsByte :
    (n poly out state : ℕ)
    → IsByte out
    → IsByte state
    → IsByte (collect n poly out state).0 × IsByte (collect n poly out state).1
unfolding collect
collect-IsByte zero poly out state ho hs = (ho, hs)
collect-IsByte (suc n) poly out state ho hs =
    collect-IsByte n poly (out * 2 % 2 ^ 8 + state / 2 ^ 7 % 2) (shift poly state) (omega arith)
      (shift-IsByte poly state)

-- The state after `n` rounds.
unfoldable pub state_after : ℕ → ℕ → ℕ → ℕ
state_after poly zero state = state
state_after poly (suc n) state = state_after poly n (shift poly state)

state_after-add :
    (poly m n state : ℕ)
    → state_after poly (m + n) state ≡ state_after poly n (state_after poly m state)
unfolding state_after
state_after-add poly zero n state =
    let none_first : 0 + n ≡ n = omega arith in ap (λ k. state_after poly k state) none_first
state_after-add poly (suc m) n state =
    let later : suc m + n ≡ suc (m + n) = omega arith in
    ap (λ k. state_after poly k state) later ∙ state_after-add poly m n (shift poly state)

period_255 : state_after 0x95 255 0xFF ≡ 0xFF
unfolding state_after shift parity
period_255 = refl

-- None of the `n` states behind `state` is the one that is sought.
unfoldable avoids : ℕ → ℕ → ℕ → ℕ → Bool
avoids sought poly zero state = true
avoids sought poly (suc n) state =
    let rest = avoids sought poly n (shift poly state) in not (shift poly state == sought) && rest

avoids_sound :
    (sought poly n state k : ℕ)
    → avoids sought poly n state ≡ true
    → k < n
    → state_after poly (suc k) state ≢ sought
unfolding avoids state_after
avoids_sound sought poly zero state k h lt e = absurd (omega arith)
avoids_sound sought poly (suc n) state zero h lt e =
    let same = (==_iff (shift poly state) sought).1 e in
    let (differs, _) =
      &&-eq-true (not (shift poly state == sought)) (avoids sought poly n (shift poly state)) h in
    ground (arith, same, differs)
avoids_sound sought poly (suc n) state (suc k) h lt e =
    let (_, rest) =
      &&-eq-true (not (shift poly state == sought)) (avoids sought poly n (shift poly state)) h in
    avoids_sound sought poly n (shift poly state) k rest (omega arith) e

no_return : avoids 0xFF 0x95 254 0xFF ≡ true
unfolding avoids shift parity
no_return = refl

-- The sequence for the polynomial 0x95 and the seed 0xFF repeats after 255 bits and not before: the
-- register is in the same state after `n` and after 255 + `n` rounds, and in none of the first 254
-- rounds is it back at the seed.
pub state_after-period :
    (n : ℕ)
    → (state_after 0x95 (255 + n) 0xFF ≡ state_after 0x95 n 0xFF)
      × (0 < n → n < 255 → state_after 0x95 n 0xFF ≢ 0xFF)
state_after-period n = (
  state_after-add 0x95 255 n 0xFF ∙ ap (state_after 0x95 n) period_255,
  λ some_rounds few. back n some_rounds few,
)
  where
    back : (n : ℕ) → 0 < n → n < 255 → state_after 0x95 n 0xFF ≢ 0xFF
    back zero some_rounds few = absurd (omega arith)
    back (suc k) some_rounds few = avoids_sound 0xFF 0x95 254 0xFF k no_return (omega arith)

pub get_next_byte-IsByte :
    (poly state : ℕ)
    → IsByte state
    → IsByte (get_next_byte poly state).0 × IsByte (get_next_byte poly state).1
get_next_byte-IsByte poly state h = collect-IsByte 8 poly 0 state (omega arith) h
