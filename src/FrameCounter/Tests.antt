-- ===== src/FrameCounter/Tests.antt =====
-- The statistics on small sequences of frames, and the theorems at inputs that meet their hypotheses.
use gr_ccsds.Prelude.{
  ℕ, ◌+◌, ◌-◌, ◌≤◌, ◌≡◌, ◌↔◌, refl, true, some, Text, length, List, [], ◌∷◌, map, ok, err,
  struct_error, arith,
}
use gr_ccsds.Prelude.Int.{ℤ, pos, ◌+ℤ◌}
use gr_ccsds.FrameCounter.Defs.{
  Globals, initial, add_lost, count_lost, account, rx_callback, receive,
}
use gr_ccsds.FrameCounter.Run.{Frame, payload, Running, Outcome, receive_total}
use gr_ccsds.FrameCounter.Loss.{missing, shortfall, rx_callback_loss, receive_exact}
use gr_ccsds.FrameCounter.Lock.{has_run, numbers, receive-lock}

abbrev frame : ℕ → Frame
frame n = record { first = 7; second = 9; number = n; rest = [] }

abbrev state : ℕ → ℤ → ℕ → ℕ → Globals
state n lost p k = record { n_rcvd = n; n_lost = some lost; p_frameno = some p; lock = some k }

locks_on_fourth :
    receive (map payload (frame 4 ∷ frame 5 ∷ frame 6 ∷ frame 7 ∷ [])) initial
    ≡ ok (state 4 (pos 0) 7 3)
unfolding receive rx_callback account
locks_on_fourth = refl

counts_gap :
    receive (map payload (frame 4 ∷ frame 5 ∷ frame 6 ∷ frame 7 ∷ frame 12 ∷ [])) initial
    ≡ ok (state 5 (pos 4) 12 3)
unfolding receive rx_callback account count_lost add_lost ◌+ℤ◌
counts_gap = refl

too_short : receive ((1 ∷ 2 ∷ []) ∷ []) initial ≡ err struct_error
unfolding receive rx_callback
too_short = refl

receive_total_example :
    Outcome
      ((1 ∷ 2 ∷ 3 ∷ []) ∷ (1 ∷ []) ∷ [])
      2
      (receive ((1 ∷ 2 ∷ 3 ∷ []) ∷ (1 ∷ []) ∷ []) initial)
receive_total_example = receive_total ((1 ∷ 2 ∷ 3 ∷ []) ∷ (1 ∷ []) ∷ [])

abbrev at_seven : Running 7 3 (state 4 (pos 0) 7 3)
at_seven = record {
  received = omega arith;
  number = refl;
  locked = refl;
  count = pos 0;
  lost = refl;
}

rx_callback_loss_example :
    (rx_callback (payload (frame 3)) (state 4 (pos 0) 7 3)
      ≡ ok (state (4 + 1) (pos 0 +ℤ pos (missing 7 3 - shortfall 7 3)) 3 3))
    × (shortfall 7 3 ≤ missing 7 3)
rx_callback_loss_example =
    rx_callback_loss 7 (frame 3) (state 4 (pos 0) 7 3) at_seven (omega arith) (omega arith)

abbrev gaps : List Frame
gaps = frame 9 ∷ frame 10 ∷ frame 20 ∷ []

receive_exact_example :
    receive (map payload gaps) (state 4 (pos 0) 7 3)
    ≡ ok (state (4 + 3) (pos 0 +ℤ pos (20 - 7 - 3)) 20 3)
receive_exact_example = receive_exact 7 gaps (state 4 (pos 0) 7 3) at_seven (omega arith)

receive-lock_example :
    (g : Globals) × (receive (map payload (frame 1 ∷ gaps)) initial ≡ ok g)
    × ((g.lock ≡ some 3) ↔ (has_run (numbers (frame 1 ∷ gaps)) ≡ true))
receive-lock_example = receive-lock (frame 1) gaps

-- A checksum that no text meets by chance: its length.
abbrev length_crc16 : Text → ℕ
length_crc16 = length
