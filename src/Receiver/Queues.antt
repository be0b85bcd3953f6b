-- ===== src/Receiver/Queues.antt =====
-- How the stages are joined: every queue is filled by one block and read by one.
use gr_ccsds.Prelude.{
  ℕ, ◌+◌, ◌<◌, ◌≡◌, sym, ap, ◌∙◌, Option, none, some, List, [], ◌∷◌, ◌++◌, append-nil, append_assoc,
  Result, ok, arith, ltb, ◌==◌, if◌then◌else◌,
}
use gr_ccsds.Prelude.Int.{ℤ}
use gr_ccsds.Receiver.Flow.{
  Queue, Block, Flow, framer_sink_dual, viterbi27_bb, randomiser_bb, rs_decode_bb, message_source,
  message_sink, msg_source,
}

-- The queue that a block fills, and the one that it reads.
abbrev pub fills : Block → Option Queue
fills (framer_sink_dual q _ _) = some q
fills (viterbi27_bb q _ _ _) = some q
fills (randomiser_bb q _ _ _ _) = some q
fills (rs_decode_bb q _) = some q
fills (message_sink q) = some q
fills _ = none

abbrev pub reads : Block → Option Queue
reads (message_source q) = some q
reads (msg_source q) = some q
reads _ = none

abbrev pub one_if : Option Queue → Queue → ℕ
one_if none j = 0
one_if (some q) j = if q == j then 1 else 0

-- How many blocks fill, or read, the queue `j`.
unfoldable pub writers : Queue → List Block → ℕ
writers j [] = 0
writers j (b ∷ bs) = one_if (fills b) j + writers j bs

unfoldable pub readers : Queue → List Block → ℕ
readers j [] = 0
readers j (b ∷ bs) = one_if (reads b) j + readers j bs

pub writers_last :
    (j : Queue) (bs : List Block) (b : Block)
    → writers j (bs ++ b ∷ []) ≡ writers j bs + one_if (fills b) j
unfolding writers
writers_last j [] b = omega arith
writers_last j (c ∷ bs) b = omega (arith, writers_last j bs b)

pub readers_last :
    (j : Queue) (bs : List Block) (b : Block)
    → readers j (bs ++ b ∷ []) ≡ readers j bs + one_if (reads b) j
unfolding readers
readers_last j [] b = omega arith
readers_last j (c ∷ bs) b = omega (arith, readers_last j bs b)

-- The sizes that a stage is made with: the symbols of a frame and of a marker; the symbols of a frame, the
-- marker and its length; and the bits of a message.
abbrev pub size_of : Block → List ℤ
size_of (framer_sink_dual _ frame_syms asm_syms) = frame_syms ∷ asm_syms ∷ []
size_of (viterbi27_bb _ frame_syms code code_length) = frame_syms ∷ code ∷ code_length ∷ []
size_of (randomiser_bb _ n _ _ _) = n ∷ []
size_of (rs_decode_bb _ n) = n ∷ []
size_of _ = []

unfoldable pub message_sizes : List Block → List ℤ
message_sizes [] = []
message_sizes (b ∷ bs) = size_of b ++ message_sizes bs

pub sizes_last :
    (bs : List Block) (b : Block) → message_sizes (bs ++ b ∷ []) ≡ message_sizes bs ++ size_of b
unfolding message_sizes
sizes_last [] b = append-nil (size_of b)
sizes_last (c ∷ bs) b =
    ap (λ l. size_of c ++ l) (sizes_last bs b)
    ∙ sym (append_assoc (size_of c) (message_sizes bs) (size_of b))

-- Every queue made so far is filled once, and read once but for the last, `q`; the stages so far have
-- the sizes `ds`, and a message behind them has `n` bits.
pub record Pending (ds : List ℤ) (n : ℤ) (q : Queue) (w : Flow) : Type 0 where
  pub sizes : message_sizes w.blocks ≡ ds
  pub bits : w.message_bits ≡ n
  pub made : q < w.queues
  pub unwatched : w.watched ≡ none
  pub filled : (j : Queue) → writers j w.blocks ≡ (if ltb j w.queues then 1 else 0)
  pub drained :
      (j : Queue) → readers j w.blocks ≡ (if ltb j w.queues then (if j == q then 0 else 1) else 0)

-- A stage that returns a pending queue.
abbrev pub Gives : List ℤ → ℤ → Result (Queue × Flow) → Type 0
Gives ds n r = (q : Queue) × (w : Flow) × (r ≡ ok (q, w)) × Pending ds n q w
