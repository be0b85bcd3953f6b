-- ===== src/SoftBits/Queue.antt =====
-- The queue of softbits_msg_to_bytes_b: messages fill it and calls of work empty it, in any order.
use gr_ccsds.Prelude.{
  ℕ, zero, suc, ◌-◌, ◌*◌, ◌≤◌, ◌≡◌, refl, sym, ap, ◌∙◌, Option, none, some, true, ◌&&◌, &&-eq-true,
  Bool-cases, inl, inr, List, [], ◌∷◌, ◌++◌, append-nil, append_assoc, Text, length, length-drop,
  replicate, take-append-drop, arith,
}
use gr_ccsds.Pdu.Message.{floats, blob, values, no_vector, Message, eof, no_pair, no_dict, pdu}
use gr_ccsds.SoftBits.Defs.{divide_ceil, BytesQueue, shifted_bytes, queue_message, is_empty, work}

-- A message arrives, or the scheduler calls work with room for so many bytes.
pub data Event : Type 0 where
  arrives : Message → Event
  room : ℕ → Event

abbrev pub put_out : Option Text → Text
put_out none = []
put_out (some s) = s

-- One event: the queue after it, and the bytes that are put out.
unfoldable pub step : BytesQueue → Event → BytesQueue × Text
step q (arrives m) = (queue_message q m, [])
step q (room n) = let (q', out) = work q n in (q', put_out out)

-- The events in turn, with the bytes that are put out in all.
unfoldable pub run : BytesQueue → List Event → BytesQueue × Text
run q [] = (q, [])
run q (e ∷ es) = let (q', out) = step q e in let (q'', rest) = run q' es in (q'', out ++ rest)

-- The bytes of a message of soft bits.
unfoldable pub packed : Message → Text
packed (pdu h (floats bits)) = shifted_bytes (divide_ceil (length bits)) bits
packed _ = []

-- The bytes of all messages that arrive, in turn.
unfoldable pub arrived : List Event → Text
arrived [] = []
arrived (arrives m ∷ es) = packed m ++ arrived es
arrived (room n ∷ es) = arrived es

queue_message-packed :
    (q : BytesQueue) (m : Message) → (queue_message q m).queue ≡ q.queue ++ packed m
unfolding queue_message packed
queue_message-packed q eof = sym (append-nil q.queue)
queue_message-packed q no_pair = sym (append-nil q.queue)
queue_message-packed q (no_dict p) = sym (append-nil q.queue)
queue_message-packed q (pdu h (blob t)) = sym (append-nil q.queue)
queue_message-packed q (pdu h (values t)) = sym (append-nil q.queue)
queue_message-packed q (pdu h no_vector) = sym (append-nil q.queue)
queue_message-packed q (pdu h (floats bits)) = refl

-- What a call puts out stood at the front of the queue.
work-front : (q : BytesQueue) (n : ℕ) → put_out (work q n).1 ++ (work q n).0.queue ≡ q.queue
unfolding work
work-front q n = elim (Bool-cases (q.stopped && is_empty q.queue)) [
  | inl done ↦ rw done refl
  | inr more ↦ rw more (take-append-drop n q.queue)
]

-- Whatever the order in which messages arrive and work is called, with whatever room: the bytes put out
-- and then those still in the queue are those that were in it at first and then those of the messages, in
-- the order of their arrival. Nothing is lost, doubled or moved.
pub run-fifo :
    (q : BytesQueue) (es : List Event) → (run q es).1 ++ (run q es).0.queue ≡ q.queue ++ arrived es
unfolding run arrived step
run-fifo q [] = sym (append-nil q.queue)
run-fifo q (arrives m ∷ es) =
    run-fifo (queue_message q m) es
    ∙ ap (λ s. s ++ arrived es) (queue_message-packed q m)
    ∙ append_assoc q.queue (packed m) (arrived es)
run-fifo q (room n ∷ es) =
    append_assoc (put_out (work q n).1) (run (work q n).0 es).1 (run (work q n).0 es).0.queue
    ∙ ap (λ s. put_out (work q n).1 ++ s) (run-fifo (work q n).0 es)
    ∙ sym (append_assoc (put_out (work q n).1) (work q n).0.queue (arrived es))
    ∙ ap (λ s. s ++ arrived es) (work-front q n)

work-stopped : (q : BytesQueue) (n : ℕ) → (work q n).0.stopped ≡ q.stopped
unfolding work
work-stopped q n = ground arith

arrived-calls : (k n : ℕ) → arrived (replicate k (room n)) ≡ []
unfolding arrived
arrived-calls zero n = refl
arrived-calls (suc k) n = arrived-calls k n

length-empty : (s : Text) → is_empty s ≡ true → length s ≡ 0
length-empty [] h = refl
length-empty (b ∷ s) h = cc

none_left : (s : Text) → length s ≤ 0 → s ≡ []
none_left [] h = refl
none_left (b ∷ s) h = absurd (omega arith)

length-work : (q : BytesQueue) (n : ℕ) → length (work q n).0.queue ≡ length q.queue - n
unfolding work
length-work q n = elim (Bool-cases (q.stopped && is_empty q.queue)) [
  | inl done ↦
      let (_, empty) = &&-eq-true q.stopped (is_empty q.queue) done in
      rw done (omega (arith, length-empty q.queue empty))
  | inr more ↦ rw more (length-drop n q.queue)
]

calls-drain :
    (k n : ℕ) (q : BytesQueue)
    → length q.queue ≤ k * n
    → ((run q (replicate k (room n))).0.queue ≡ [])
      × ((run q (replicate k (room n))).0.stopped ≡ q.stopped)
unfolding run step
calls-drain zero n q small = (none_left q.queue (omega arith), refl)
calls-drain (suc k) n q small =
    let (drained, same) = calls-drain k n (work q n).0 (omega (arith, length-work q n)) in
    (drained, same ∙ work-stopped q n)

-- After the end of the stream, `k` calls of work with room for `n` bytes each, enough for the bytes in the
-- queue, put all of them out in their order, and the call after them says that the block is done.
pub run-drains :
    (k n : ℕ) (q : BytesQueue)
    → q.stopped ≡ true
    → length q.queue ≤ k * n
    → ((run q (replicate k (room n))).1 ≡ q.queue)
      × ((work (run q (replicate k (room n))).0 n).1 ≡ none)
unfolding work
run-drains k n q stopped small =
    let (drained, same) = calls-drain k n q small in
    let whole = run-fifo q (replicate k (room n)) in
    (
      sym (append-nil (run q (replicate k (room n))).1)
          ∙ ap (λ s. (run q (replicate k (room n))).1 ++ s) (sym drained)
          ∙ whole
          ∙ ap (λ s. q.queue ++ s) (arrived-calls k n)
          ∙ append-nil q.queue,
      rw (same ∙ stopped, drained) refl,
    )
