-- ===== src/Randomiser/Noise.antt =====
-- The sequence of the standard, by its recurrence, and the block held against it.
use gr_ccsds.Prelude.{
  ◌^◌, ℕ, zero, suc, ◌+◌, ◌*◌, ◌/◌, ◌%◌, ◌≡◌, refl, ap, ◌∙◌, sym, &&-eq-true, ◌&&◌, true, List, [],
  ◌∷◌, ◌++◌, Text, All, IsByte, length, ◌==◌, ==_iff, arith,
}
use gr_ccsds.Prelude.Below.{all_below, all_below_sound}
use gr_ccsds.Prelude.BitLists.{bits_of, bits_in, length-bits_of}
use gr_ccsds.Prelude.Sums.{add_bits, add_bits-append, bits_of-bit_xor}
use gr_ccsds.Pdu.Message.{Header, pdu, blob}
use gr_ccsds.Randomiser.Defs.{
  Randomiser, parity, shift, collect, get_next_byte, mask, process_frame,
}
use gr_ccsds.Randomiser.Register.{shift-IsByte, get_next_byte-IsByte}
use gr_ccsds.Randomiser.Mask.{length-mask, mask-IsByte}

-- The first `n` bits of the sequence of h(x) = x^8 + x^7 + x^5 + x^3 + 1, of which the first eight are given:
-- each later bit is the sum without carry of those one, three, five and eight places before it.
unfoldable pub noise : ℕ → ℕ → ℕ → ℕ → ℕ → ℕ → ℕ → ℕ → ℕ → List ℕ
noise zero a b c d e f g h = []
noise (suc n) a b c d e f g h = a ∷ noise n b c d e f g h ((a + d + f + h) % 2)

-- The sequence whose first eight bits are those of a register, from the highest one on.
unfoldable noise_from : ℕ → ℕ → List ℕ
noise_from n state =
    noise n (state / 128 % 2) (state / 64 % 2) (state / 32 % 2) (state / 16 % 2) (state / 8 % 2)
      (state / 4 % 2) (state / 2 % 2) (state % 2)

shifts :
    all_below 256 (λ state.
      (shift 0x95 state
        == state * 2 % 256 + (state / 128 % 2 + state / 16 % 2 + state / 4 % 2 + state % 2) % 2)
      && ((get_next_byte 0x95 state).0 == state))
    ≡ true
unfolding all_below shift parity collect
shifts = refl

shift-feedback :
    (state : ℕ)
    → IsByte state
    → shift 0x95 state
      ≡ state * 2 % 256 + (state / 128 % 2 + state / 16 % 2 + state / 4 % 2 + state % 2) % 2
shift-feedback state h =
    let (next, _) = &&-eq-true _ _ (all_below_sound 256 _ state shifts h) in (==_iff _ _).0 next

-- The next byte that is put out is what the register holds.
get_next_byte-state : (state : ℕ) → IsByte state → (get_next_byte 0x95 state).0 ≡ state
get_next_byte-state state h =
    let (_, byte) = &&-eq-true _ _ (all_below_sound 256 _ state shifts h) in (==_iff _ _).0 byte

noise_from-step :
    (n state : ℕ)
    → IsByte state
    → noise_from (suc n) state ≡ state / 128 % 2 ∷ noise_from n (shift 0x95 state)
unfolding noise_from noise
noise_from-step n state h =
    let next = shift-feedback state h in
    let s = shift 0x95 state in
    let b7 : s / 128 % 2 ≡ state / 64 % 2 = omega arith in
    let b6 : s / 64 % 2 ≡ state / 32 % 2 = omega arith in
    let b5 : s / 32 % 2 ≡ state / 16 % 2 = omega arith in
    let b4 : s / 16 % 2 ≡ state / 8 % 2 = omega arith in
    let b3 : s / 8 % 2 ≡ state / 4 % 2 = omega arith in
    let b2 : s / 4 % 2 ≡ state / 2 % 2 = omega arith in
    let b1 : s / 2 % 2 ≡ state % 2 = omega arith in
    let b0 : s % 2 ≡ (state / 128 % 2 + state / 16 % 2 + state / 4 % 2 + state % 2) % 2 =
      omega arith in
    rw (b7, b6, b5, b4, b3, b2, b1, b0) refl

-- The first bits of the sequence, and those behind `n` rounds of the register.
noise_from-collect :
    (n m out state : ℕ)
    → IsByte state
    → noise_from (n + m) state ≡ noise_from n state ++ noise_from m (collect n 0x95 out state).1
unfolding collect noise_from noise
noise_from-collect zero m out state h =
    let none_before : 0 + m ≡ m = omega arith in ap (λ k. noise_from k state) none_before
noise_from-collect (suc n) m out state h =
    let later : suc n + m ≡ suc (n + m) = omega arith in
    ap (λ k. noise_from k state) later
    ∙ noise_from-step (n + m) state h
    ∙ ap (λ l. state / 128 % 2 ∷ l)
        (noise_from-collect n m (out * 2 % 2 ^ 8 + state / 2 ^ 7 % 2) (shift 0x95 state)
          (shift-IsByte 0x95 state))
    ∙ ap (λ l. l ++ noise_from m (collect (suc n) 0x95 out state).1)
        (sym (noise_from-step n state h))

byte-noise : (state : ℕ) → bits_of 8 state ≡ noise_from 8 state
unfolding bits_of noise_from noise
byte-noise state =
    let lowest : state / 1 % 2 ≡ state % 2 = omega arith in
    ap
      (λ x.
        state / 128 % 2
        ∷ state / 64 % 2
        ∷ state / 32 % 2
        ∷ state / 16 % 2
        ∷ state / 8 % 2
        ∷ state / 4 % 2
        ∷ state / 2 % 2
        ∷ x
        ∷ [])
      lowest

-- The bits of a masked message are those of the message, each with its bit of the sequence added.
mask-noise :
    (state : ℕ) (s : Text)
    → IsByte state
    → bits_in (mask 0x95 state s).0 ≡ add_bits (bits_in s) (noise_from (8 * length s) state)
unfolding mask add_bits
mask-noise state [] h = refl
mask-noise state (b ∷ s) h =
    let key = (get_next_byte 0x95 state).0 in
    let next = (get_next_byte 0x95 state).1 in
    let rest = noise_from (8 * length s) next in
    let key_bits : bits_of 8 key ≡ noise_from 8 state =
      ap (bits_of 8) (get_next_byte-state state h) ∙ byte-noise state in
    let longer : 8 * suc (length s) ≡ 8 + 8 * length s = omega arith in
    let split : bits_of 8 key ++ rest ≡ noise_from (8 * suc (length s)) state =
      ap (λ l. l ++ rest) key_bits
      ∙ sym (noise_from-collect 8 (8 * length s) 0 state h)
      ∙ ap (λ k. noise_from k state) (sym longer) in
    ap (λ l. l ++ bits_in (mask 0x95 next s).0) (bits_of-bit_xor 8 b key)
    ∙ ap (λ l. add_bits (bits_of 8 b) (bits_of 8 key) ++ l)
        (mask-noise next s (get_next_byte-IsByte 0x95 state h).1)
    ∙ sym (
        add_bits-append (bits_of 8 b) (bits_in s) (bits_of 8 key) rest
          (length-bits_of 8 b ∙ sym (length-bits_of 8 key)))
    ∙ ap (add_bits (bits_of 8 b ++ bits_in s)) split

-- A block with the polynomial 0x95 and the seed 0xFF of the standard, whatever its register holds from the
-- messages before, answers a message of bytes by one with the same header and as many bytes, whose
-- bits are those of the message with the sequence of h(x) = x^8 + x^7 + x^5 + x^3 + 1 added without
-- carry, which starts with eight ones at each message.
pub process_frame-noise :
    (r : Randomiser) (h : Header) (s : Text)
    → r.poly ≡ 0x95
    → r.seed ≡ 0xFF
    → All IsByte s
    → (out : Text) × ((process_frame r (pdu h (blob s))).1 ≡ pdu h (blob out) ∷ [])
      × (length out ≡ length s)
      × All IsByte out
      × (bits_in out ≡ add_bits (bits_in s) (noise (8 * length s) 1 1 1 1 1 1 1 1))
unfolding process_frame noise_from
process_frame-noise r h s poly seed bytes = (
  (mask 0x95 0xFF s).0,
  rw (poly, seed) refl,
  length-mask 0x95 0xFF s,
  mask-IsByte 0x95 0xFF s (omega arith) bytes,
  mask-noise 0xFF s (omega arith),
)
