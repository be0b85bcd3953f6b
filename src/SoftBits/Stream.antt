-- ===== src/SoftBits/Stream.antt =====
-- soft_to_hard_message on a stream of messages.
use gr_ccsds.Prelude.{
  ◌/◌, ◌%◌, ◌≡◌, refl, ap, true, false, List, [], ◌∷◌, ◌++◌, length, ltb, if◌then◌else◌,
}
use gr_ccsds.Pdu.Message.{
  floats, blob, values, no_vector, Message, eof, no_pair, no_dict, pdu, deliver, published,
}
use gr_ccsds.SoftBits.Defs.{SoftToHard, hard_bytes, convert_message, process_message}

-- What the block is for: a message of soft bits for whole bytes becomes the message of the bytes, with
-- the same header; anything else is dropped.
unfoldable pub answer : Message → List Message
answer (pdu h (floats bits)) =
    if ltb 0 (length bits % 8) then [] else (pdu h (blob (hard_bytes (length bits / 8) bits)) ∷ [])
answer _ = []

-- The answers to the messages before the end of the stream, the end, and nothing more.
unfoldable pub answers : List Message → List Message
answers [] = []
answers (eof ∷ ms) = eof ∷ []
answers (m ∷ ms) = answer m ++ answers ms

abbrev running : SoftToHard
running = record { stopped = false }

abbrev ended : SoftToHard
ended = record { stopped = true }

silent-ended : (ms : List Message) → published process_message ended ms ≡ []
unfolding deliver process_message
silent-ended [] = refl
silent-ended (m ∷ ms) = silent-ended ms

-- A converter that is not stopped answers the messages of a stream one by one up to the end of the
-- stream, passes that on, and publishes nothing for whatever comes after it.
pub published-answers :
    (ms : List Message) → published process_message (record { stopped = false }) ms ≡ answers ms
unfolding deliver process_message convert_message answers answer
published-answers [] = refl
published-answers (eof ∷ ms) = ap (λ out. eof ∷ out) (silent-ended ms)
published-answers (no_pair ∷ ms) = published-answers ms
published-answers (no_dict p ∷ ms) = published-answers ms
published-answers (pdu h (blob t) ∷ ms) = published-answers ms
published-answers (pdu h (values t) ∷ ms) = published-answers ms
published-answers (pdu h no_vector ∷ ms) = published-answers ms
published-answers (pdu h (floats bits) ∷ ms) =
    ap
      (λ rest.
        (if ltb 0 (length bits % 8)
          then []
          else (pdu h (blob (hard_bytes (length bits / 8) bits)) ∷ []))
        ++ rest)
      (published-answers ms)
