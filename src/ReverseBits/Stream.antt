-- ===== src/ReverseBits/Stream.antt =====
-- The messages of a stream, which the block answers one by one.
use mathlib.Core.List.{flat_map}
use gr_ccsds.Prelude.{
  ℕ, ◌≡◌, refl, sym, ◌∙◌, Bool-cases, inl, inr, List, [], ◌∷◌, map, Text, All, length, ◌==◌, ==_iff,
  if◌then◌else◌,
}
use gr_ccsds.Pdu.Message.{
  Header, blob, floats, values, no_vector, Message, eof, no_pair, no_dict, pdu, published,
}
use gr_ccsds.Pdu.Experiment.{numbered}
use gr_ccsds.Pdu.Stateless.{Answers, published-flat_map, flat_map-numbered}
use gr_ccsds.ReverseBits.Defs.{ReverseBits, process_frame}
use gr_ccsds.ReverseBits.Laws.{mirrored, chosen, reverse_positions-mirrored}

-- What the block is for: a message of the expected length has its chosen bytes turned around and keeps
-- its header, the end of the stream is passed on, and anything else is dropped.
abbrev pub answer : ℕ → List ℕ → Message → List Message
answer n ps eof = eof ∷ []
answer n ps no_pair = []
answer n ps (no_dict p) = []
answer n ps (pdu h (blob s)) =
    if length s == n then (pdu h (blob (mirrored (chosen ps) 0 s)) ∷ []) else []
answer n ps (pdu h (floats s)) = []
answer n ps (pdu h (values s)) = []
answer n ps (pdu h no_vector) = []

abbrev HasParameters : ℕ → List ℕ → ReverseBits → Type 0
HasParameters n ps r = (r.msg_len ≡ n) × (r.positions ≡ ps)

blob-answer :
    (n : ℕ) (ps : List ℕ) (r : ReverseBits) (h : Header) (s : Text)
    → HasParameters n ps r
    → (process_frame r (pdu h (blob s))).1 ≡ answer n ps (pdu h (blob s))
unfolding process_frame
blob-answer n ps r h s (hn, hps) = elim (Bool-cases (length s == n)) [
  | inl e ↦
      rw (hn, hps, e)
        (let same = (==_iff (length s) n).0 e in
          rw (sym same, reverse_positions-mirrored ps s) refl)
  | inr e ↦ rw (hn, hps, e) refl
]

process_frame-answer :
    (n : ℕ) (ps : List ℕ) → Answers process_frame (HasParameters n ps) (answer n ps)
unfolding process_frame
process_frame-answer n ps r eof h = (refl, h)
process_frame-answer n ps r no_pair h = (refl, h)
process_frame-answer n ps r (no_dict p) h = (refl, h)
process_frame-answer n ps r (pdu hdr (blob s)) h = (blob-answer n ps r hdr s h, h)
process_frame-answer n ps r (pdu hdr (floats s)) h = (refl, h)
process_frame-answer n ps r (pdu hdr (values s)) h = (refl, h)
process_frame-answer n ps r (pdu hdr no_vector) h = (refl, h)

-- The block answers each message of a stream by itself: it passes on a message of the configured length
-- with the bits of each byte at one of the positions in the opposite order, the highest bit first
-- becoming the highest bit last, and its other bytes and its header kept, whatever came before it;
-- it passes on the end of the stream and drops everything else.
pub published-mirrored :
    (r : ReverseBits) (ms : List Message)
    → published process_frame r ms ≡ flat_map (answer r.msg_len r.positions) ms
published-mirrored r ms =
    published-flat_map process_frame (HasParameters r.msg_len r.positions)
      (answer r.msg_len r.positions) (process_frame-answer r.msg_len r.positions) r ms (refl, refl)

pub published-numbered :
    (r : ReverseBits) (ms : List Text)
    → All (λ s. length s ≡ r.msg_len) ms
    → published process_frame r (numbered 0 ms)
      ≡ numbered 0 (map (mirrored (chosen r.positions) 0) ms)
published-numbered r ms h =
    published-mirrored r (numbered 0 ms)
    ∙ flat_map-numbered (answer r.msg_len r.positions) (λ s. length s ≡ r.msg_len)
        (mirrored (chosen r.positions) 0)
        (record {
          passes_end = refl;
          applies = λ i s e. rw ((==_iff (length s) r.msg_len).1 e) refl;
        })
        0 ms h
