-- ===== src/Receiver/Threshold.antt =====
-- The two correlators of `bpsk_frame_sync`, and their threshold.
use mathlib.Core.List.{flat_map}
use gr_ccsds.Prelude.{
  List, ◌++◌, append_assoc, ap, Result, ◌≤◌, subst, ok-injective, ◌↔◌, ℕ, zero, suc, ◌+◌, ◌/◌, ◌%◌,
  ◌≡◌, ◌≢◌, refl, sym, ◌∙◌, false, [], ◌∷◌, Text, All, All-append, ok, length, arith,
}
use gr_ccsds.Prelude.Int.{ℤ, pos, ◌≤ℤ◌, ◌+ℤ◌, int_laws}
use gr_ccsds.BitText.Defs.{complement, flip}
use gr_ccsds.BitText.Digits.{fixed}
use gr_ccsds.BitText.Nibbles.{IsHex, nibble, hexstr2binstr-nibbles}
use gr_ccsds.BitText.Complement.{IsBit, bits_wrong, complement_distance}
use gr_ccsds.Receiver.Flow.{Queue, Flow, Block, correlate_access_code_bb, >>=-run, lift, lift-run}
use gr_ccsds.Receiver.Blocks.{bpsk_frame_sync, frame_sync_blocks}
use gr_ccsds.Receiver.Marker.{Options, Encoder, marker_of, threshold_of}

last-IsBit : (n : ℕ) → IsBit (b'0' + n % 2)
last-IsBit n = omega arith

fixed-IsBit : (k n : ℕ) → All IsBit (fixed k n)
unfolding fixed
fixed-IsBit zero n = tt
fixed-IsBit (suc k) n =
    All-append IsBit (fixed k (n / 2)) _ (fixed-IsBit k (n / 2)) (last-IsBit n, tt)

nibbles-IsBit : (s : Text) → All IsBit (flat_map nibble s)
unfolding flat_map
nibbles-IsBit [] = tt
nibbles-IsBit (c ∷ s) = All-append IsBit (nibble c) _ (fixed-IsBit 4 _) (nibbles-IsBit s)

plain_marker :
    (encode : Encoder) (o : Options)
    → o.viterbi27 ≡ false
    → o.access_code ≢ []
    → All IsHex o.access_code
    → marker_of encode o ≡ ok (flat_map nibble o.access_code, pos o.code_length)
unfolding marker_of
plain_marker encode o v ne h = rw (hexstr2binstr-nibbles o.access_code ne h).0 (rw v refl)

-- What a correlator finds: a window within the threshold of its marker.
abbrev pub Finds : ℤ → Text → Text → Type 0
Finds threshold window marker = pos (bits_wrong window marker) ≤ℤ threshold

-- The marker with its first `k` digits flipped.
unfoldable flip_first : ℕ → Text → Text
flip_first zero m = m
flip_first (suc k) [] = []
flip_first (suc k) (c ∷ m) = flip c ∷ flip_first k m

flip-IsBit : (c : ℕ) → IsBit c → IsBit (flip c)
flip-IsBit c h = ground arith

flip_first-IsBit : (k : ℕ) (m : Text) → All IsBit m → All IsBit (flip_first k m)
unfolding flip_first
flip_first-IsBit zero m h = h
flip_first-IsBit (suc k) [] h = tt
flip_first-IsBit (suc k) (c ∷ m) (hc, h) = (flip-IsBit c hc, flip_first-IsBit k m h)

length-flip_first : (k : ℕ) (m : Text) → length (flip_first k m) ≡ length m
unfolding flip_first
length-flip_first zero m = refl
length-flip_first (suc k) [] = refl
length-flip_first (suc k) (c ∷ m) = omega (arith, length-flip_first k m)

bits_wrong_self : (m : Text) → bits_wrong m m ≡ 0
unfolding bits_wrong
bits_wrong_self [] = refl
bits_wrong_self (c ∷ m) = ground (arith, bits_wrong_self m)

bits_wrong-flip_first :
    (k : ℕ) (m : Text) → All IsBit m → k ≤ length m → bits_wrong (flip_first k m) m ≡ k
unfolding flip_first bits_wrong
bits_wrong-flip_first zero m h le = bits_wrong_self m
bits_wrong-flip_first (suc k) [] h le = absurd (omega arith)
bits_wrong-flip_first (suc k) (c ∷ m) (hc, h) le =
    let rest = bits_wrong-flip_first k m h (omega arith) in ground (arith, rest)

-- Some window of received bits, as long as the marker, is found by both correlators: by the one for the
-- marker and by the one for its complement.
abbrev pub FoundByBoth : ℤ → Text → Type 0
FoundByBoth threshold marker =
    (window : Text) × All IsBit window
    × (length window ≡ length marker)
    × Finds threshold window marker
    × Finds threshold window (complement marker)

both_iff : (t : ℤ) (m : Text) → All IsBit m → FoundByBoth t m ↔ (pos (length m) ≤ℤ t +ℤ t)
both_iff t m bits = (
  λ both.
      let (w, hw, same, plain, inverse) = both in
      omega (int_laws, complement_distance w m hw bits same, plain, inverse),
  λ wide.
      let half = length m / 2 in
      let w = flip_first half m in
      let hw = flip_first-IsBit half m bits in
      let same = length-flip_first half m in
      let near = bits_wrong-flip_first half m bits (omega arith) in
      let distance = complement_distance w m hw bits same in
      (w, hw, same, omega (int_laws, near, wide), omega (int_laws, near, wide, distance)),
)

-- Without the Viterbi decoder the marker is a hexadecimal access code in binary: its digits are binary.
pub plain_marker-IsBit :
    (encode : Encoder) (o : Options) (m : Text × ℤ)
    → o.viterbi27 ≡ false
    → o.access_code ≢ []
    → All IsHex o.access_code
    → marker_of encode o ≡ ok m
    → All IsBit m.0
plain_marker-IsBit encode o m v ne h e =
    subst (λ (m : Text × ℤ). All IsBit m.0) (ok-injective (sym (plain_marker encode o v ne h) ∙ e))
      (nibbles-IsBit o.access_code)

-- The correlators of a flow graph, each with its marker and its threshold.
abbrev pub correlator_of : Block → List (Text × ℤ)
correlator_of (correlate_access_code_bb marker threshold) = (marker, threshold) ∷ []
correlator_of _ = []

unfoldable pub correlators : List Block → List (Text × ℤ)
correlators [] = []
correlators (b ∷ bs) = correlator_of b ++ correlators bs

correlators-append :
    (bs cs : List Block) → correlators (bs ++ cs) ≡ correlators bs ++ correlators cs
unfolding correlators
correlators-append [] cs = refl
correlators-append (b ∷ bs) cs =
    ap (λ l. correlator_of b ++ l) (correlators-append bs cs)
    ∙ sym (append_assoc (correlator_of b) (correlators bs) (correlators cs))

-- The frame sync is built without an exception; it adds two correlators, for `marker` and for its
-- complement, with the same threshold; and some window is found by both exactly when the marker is at
-- most twice as long as the threshold.
abbrev pub Exclusive : Text → ℤ → Flow → Result (Queue × Flow) → Type 0
Exclusive marker t w r =
    (q : Queue) × (w' : Flow) × (r ≡ ok (q, w'))
    × (correlators w'.blocks ≡ correlators w.blocks ++ (marker, t) ∷ (complement marker, t) ∷ [])
    × (FoundByBoth t marker ↔ (pos (length marker) ≤ℤ t +ℤ t))

frame_sync_blocks-Exclusive :
    (o : Options) (m : Text × ℤ) (w : Flow)
    → All IsBit m.0
    → Exclusive m.0 (threshold_of o m.1) w (frame_sync_blocks o m w)
unfolding frame_sync_blocks correlators
frame_sync_blocks-Exclusive o m w bits =
    (_, _, refl, simp (correlators-append, append_assoc), both_iff (threshold_of o m.1) m.0 bits)

-- For any threshold, the default of 5 and the -1 that stands for a tenth of the marker among them, and
-- with the Viterbi decoder or without it: when the marker can be computed from the options and
-- consists of binary digits, bpsk_frame_sync is built without an exception and adds two correlators,
-- the first for the marker and the second for its complement, both with the threshold of the options;
-- and there is a window of received bits, as long as the marker, that both of them find, exactly when
-- the marker is at most twice as long as the threshold.
pub bpsk_frame_sync-Exclusive :
    (encode : Encoder) (o : Options) (m : Text × ℤ) (w : Flow)
    → marker_of encode o ≡ ok m
    → All IsBit m.0
    → Exclusive m.0 (threshold_of o m.1) w (bpsk_frame_sync encode o w)
unfolding bpsk_frame_sync
bpsk_frame_sync-Exclusive encode o m w e bits =
    subst (Exclusive m.0 (threshold_of o m.1) w)
      (sym (>>=-run (lift (marker_of encode o)) (frame_sync_blocks o) w (lift-run _ w e)))
      (frame_sync_blocks-Exclusive o m w bits)
