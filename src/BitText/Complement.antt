-- ===== src/BitText/Complement.antt =====
-- The two correlators of `bpsk_frame_sync` look for the sync marker and for its complement.
use gr_ccsds.Prelude.{
  ℕ, suc, ◌+◌, ◌≡◌, ◌⊎◌, refl, [], ◌∷◌, Text, All, length, arith, ◌==◌, if◌then◌else◌,
}
use mathlib.Core.Path.{ap₂}
use gr_ccsds.BitText.Defs.{flip, complement}

abbrev pub IsBit : ℕ → Type 0
IsBit c = (c ≡ b'0') ⊎ (c ≡ b'1')

-- The number of places at which a window of received digits differs from a marker: what a correlator
-- holds against its threshold.
unfoldable pub bits_wrong : Text → Text → ℕ
bits_wrong [] t = length t
bits_wrong (c ∷ s) [] = suc (length s)
bits_wrong (c ∷ s) (d ∷ t) = (if c == d then 0 else 1) + bits_wrong s t

-- A window of as many digits as the marker has differs from the marker and from its complement in
-- numbers of places that add up to their length.
pub complement_distance :
    (w m : Text)
    → All IsBit w
    → All IsBit m
    → length w ≡ length m
    → bits_wrong w m + bits_wrong w (complement m) ≡ length m
unfolding bits_wrong complement
complement_distance [] [] hw hm e = refl
complement_distance [] (d ∷ m) hw hm e = absurd (omega arith)
complement_distance (c ∷ w) [] hw hm e = absurd (omega arith)
complement_distance (c ∷ w) (d ∷ m) hw hm e =
    let rest = complement_distance w m hw.1 hm.1 (omega arith) in
    let (hc, _) = hw in let (hd, _) = hm in ground (arith, rest)

-- Complementing twice changes nothing, on any text.
flip-flip : (c : ℕ) → flip (flip c) ≡ c
flip-flip c = ground arith

pub complement_involutive : (m : Text) → complement (complement m) ≡ m
unfolding complement
complement_involutive [] = refl
complement_involutive (c ∷ m) = ap₂ (λ d s. d ∷ s) (flip-flip c) (complement_involutive m)
