-- ===== src/Randomiser/Mask.antt =====
-- What the randomiser does to a message: it can be undone by doing it again, keeps the length and gives
-- bytes, whatever came before.
use mathlib.Core.Path.{ap₂}
use mathlib.Core.List.{flat_map}
use gr_ccsds.Prelude.{ℕ, ◌≡◌, refl, ap, ◌∙◌, List, [], ◌∷◌, map, Text, All, IsByte, length, suc}
use gr_ccsds.Prelude.Bits.{bit_xor-lt, bit_xor_twice}
use gr_ccsds.Pdu.Message.{
  Message, eof, no_pair, no_dict, floats, values, no_vector, pdu, blob, published,
}
use gr_ccsds.Pdu.Experiment.{numbered}
use gr_ccsds.Pdu.Stateless.{Answers, published-flat_map, flat_map-numbered}
use gr_ccsds.Randomiser.Defs.{Randomiser, get_next_byte, mask, process_frame}
use gr_ccsds.Randomiser.Register.{get_next_byte-IsByte}

pub length-mask : (poly state : ℕ) (s : Text) → length (mask poly state s).0 ≡ length s
unfolding mask
length-mask poly state [] = refl
length-mask poly state (b ∷ s) = ap (λ n. suc n) (length-mask poly (get_next_byte poly state).1 s)

pub mask_twice : (poly state : ℕ) (s : Text) → (mask poly state (mask poly state s).0).0 ≡ s
unfolding mask
mask_twice poly state [] = refl
mask_twice poly state (b ∷ s) =
    ap₂ ◌∷◌ (bit_xor_twice b (get_next_byte poly state).0)
      (mask_twice poly (get_next_byte poly state).1 s)

pub mask-IsByte :
    (poly state : ℕ) (s : Text) → IsByte state → All IsByte s → All IsByte (mask poly state s).0
unfolding mask
mask-IsByte poly state [] hs h = tt
mask-IsByte poly state (b ∷ s) hs (hb, h) =
    let (key, next) = get_next_byte-IsByte poly state hs in
    (
      bit_xor-lt b (get_next_byte poly state).0 hb key,
      mask-IsByte poly (get_next_byte poly state).1 s next h,
    )

-- What a randomiser is for: a message of bytes is masked from the seed and keeps its header, the end of
-- the stream is passed on, and anything else is dropped.
abbrev pub answer : ℕ → ℕ → Message → List Message
answer poly seed eof = eof ∷ []
answer poly seed no_pair = []
answer poly seed (no_dict p) = []
answer poly seed (pdu h (blob s)) = pdu h (blob (mask poly seed s).0) ∷ []
answer poly seed (pdu h (floats s)) = []
answer poly seed (pdu h (values s)) = []
answer poly seed (pdu h no_vector) = []

-- The parameters of the block, which no message changes.
abbrev HasParameters : ℕ → ℕ → Randomiser → Type 0
HasParameters poly seed r = (r.poly ≡ poly) × (r.seed ≡ seed)

process_frame-answer :
    (poly seed : ℕ) → Answers process_frame (HasParameters poly seed) (answer poly seed)
unfolding process_frame
process_frame-answer poly seed r eof h = (refl, h)
process_frame-answer poly seed r no_pair h = (refl, h)
process_frame-answer poly seed r (no_dict p) h = (refl, h)
process_frame-answer poly seed r (pdu hdr (blob s)) h = (rw (h.0, h.1) refl, h)
process_frame-answer poly seed r (pdu hdr (floats s)) h = (refl, h)
process_frame-answer poly seed r (pdu hdr (values s)) h = (refl, h)
process_frame-answer poly seed r (pdu hdr no_vector) h = (refl, h)

-- The block, with its state, answers each message of a stream by itself, as if it had no state: the
-- messages before it, the end of the stream among them, make no difference.
pub published-answer :
    (r : Randomiser) (ms : List Message)
    → published process_frame r ms ≡ flat_map (answer r.poly r.seed) ms
published-answer r ms =
    published-flat_map process_frame (HasParameters r.poly r.seed) (answer r.poly r.seed)
      (process_frame-answer r.poly r.seed) r ms (refl, refl)

any_message : (ms : List Text) → All (λ s. Unit {0}) ms
any_message [] = tt
any_message (m ∷ ms) = (tt, any_message ms)

pub published-numbered :
    (r : Randomiser) (ms : List Text)
    → published process_frame r (numbered 0 ms)
      ≡ numbered 0 (map (λ s. (mask r.poly r.seed s).0) ms)
published-numbered r ms =
    published-answer r (numbered 0 ms)
    ∙ flat_map-numbered (answer r.poly r.seed) (λ s. Unit {0}) (λ s. (mask r.poly r.seed s).0)
        (record { passes_end = refl; applies = λ i s h. refl }) 0 ms (any_message ms)
