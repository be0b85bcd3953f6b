-- ===== src/Pdu/Stateless.antt =====
-- A block whose answers do not depend on its state.
use mathlib.Core.Path.{ap₂}
use mathlib.Core.List.{flat_map}
use gr_ccsds.Prelude.{ℕ, ◌+◌, ◌≡◌, refl, ap, List, [], ◌∷◌, ◌++◌, map, Text, All}
use gr_ccsds.Prelude.Int.{pos}
use gr_ccsds.Pdu.Message.{Message, Handler, blob, eof, pdu, whole, deliver, published}
use gr_ccsds.Pdu.Experiment.{numbered}

-- In the states with the property the handler answers as the function does, and stays in such states.
abbrev pub Answers : {S : Type 0} → Handler S → (S → Type 0) → (Message → List Message) → Type 0
Answers {S = S} handle Good answer =
    (s : S) (m : Message) → Good s → ((handle s m).1 ≡ answer m) × Good (handle s m).0

pub published-flat_map :
    {S : Type 0} (handle : Handler S) (Good : S → Type 0) (answer : Message → List Message)
    → Answers handle Good answer
    → (s : S) (ms : List Message) → Good s
    → published handle s ms ≡ flat_map answer ms
unfolding deliver flat_map
published-flat_map handle Good answer h s [] good = refl
published-flat_map handle Good answer h s (m ∷ ms) good =
    let (out, good') = h s m good in
    ap₂ ◌++◌ out (published-flat_map handle Good answer h (handle s m).0 ms good')

-- A message of bytes is answered by one with the same header, and the end of the stream by the end.
pub record Transforms (answer : Message → List Message) (P : Text → Type 0) (f : Text → Text)
    : Type 0 where
  pub passes_end : answer eof ≡ eof ∷ []
  pub applies :
      (i : ℕ) (s : Text)
      → P s
      → answer (pdu (("frame_number", whole (pos i)) ∷ []) (blob s))
        ≡ pdu (("frame_number", whole (pos i)) ∷ []) (blob (f s)) ∷ []

pub flat_map-numbered :
    (answer : Message → List Message) (P : Text → Type 0) (f : Text → Text)
    → Transforms answer P f
    → (i : ℕ) (ms : List Text) → All P ms
    → flat_map answer (numbered i ms) ≡ numbered i (map f ms)
unfolding numbered flat_map
flat_map-numbered answer P f t i [] h = ap (λ out. out ++ []) t.passes_end
flat_map-numbered answer P f t i (m ∷ ms) h =
    ap₂ ◌++◌ (t.applies i m h.0) (flat_map-numbered answer P f t (i + 1) ms h.1)
