-- ===== src/FrameCounter/Defs.antt =====
-- `rx_callback` of python/bpsk_rx.py. Its four variables are globals of the module, of which
-- `main` sets only `n_rcvd` (the other three it sets are its own locals), so a global may be
-- undefined: reading it then raises NameError.
use gr_ccsds.Prelude.{
  ℕ, ◌+◌, Option, none, some, List, [], ◌∷◌, Text, Result, ok, err, struct_error, name_error,
  or_raise, ◌>>=◌, take, drop, ltb, ◌==◌, if◌then◌else◌,
}
use gr_ccsds.Prelude.Int.{ℤ, pos, sub_ℕ, ◌+ℤ◌}

pub record Globals : Type 0 where
  pub n_rcvd : ℕ
  pub n_lost : Option ℤ
  pub p_frameno : Option ℕ
  pub lock : Option ℕ

-- As `main` leaves them before the flow graph starts.
abbrev pub initial : Globals
initial = record { n_rcvd = 0; n_lost = none; p_frameno = none; lock = none }

-- struct.unpack('!B', s)
unfoldable pub unpack_byte : Text → Result ℕ
unpack_byte (b ∷ []) = ok b
unpack_byte _ = err struct_error

-- n_lost += n
unfoldable pub add_lost : ℤ → Globals → Result Globals
add_lost n g = do l ← or_raise name_error g.n_lost; ok (record g { n_lost = some (l +ℤ n) })

-- The branches for a locked receiver: the number of the frame against that of the last one.
unfoldable pub count_lost : ℕ → ℕ → Globals → Result Globals
unfolding add_lost
count_lost frameno p g =
    if ltb p frameno
    then (if frameno == p + 1 then ok g else add_lost (sub_ℕ frameno (p + 1)) g)
    else do
      g' ← if p == 255 then ok g else add_lost (sub_ℕ 254 p) g
      if ltb 0 frameno then add_lost (sub_ℕ frameno 1) g' else ok g'

-- The tests on `n_rcvd` and `lock`.
unfoldable pub account : ℕ → Globals → Result Globals
account frameno g =
    if g.n_rcvd == 0 then ok (record g { n_lost = some (pos 0); lock = some 0 }) else do
      lock ← or_raise name_error g.lock
      p ← or_raise name_error g.p_frameno
      if ltb lock 3
          then ok (record g { lock = some (if frameno == p + 1 then lock + 1 else 0) })
          else count_lost frameno p g

-- rx_callback(ok, payload). The last line prints `n_lost`, and so reads it.
unfoldable pub rx_callback : Text → Globals → Result Globals
unfolding unpack_byte
rx_callback payload g = do
  frameno ← unpack_byte (take 1 (drop 2 payload))
  g' ← account frameno g
  let counted = record g' { p_frameno = some frameno; n_rcvd = g'.n_rcvd + 1 }
  printed ← or_raise name_error counted.n_lost
  ok counted

-- The callback for each payload in turn, as the thread of the queue calls it.
unfoldable pub receive : List Text → Globals → Result Globals
receive [] g = ok g
receive (payload ∷ rest) g = do g' ← rx_callback payload g; receive rest g'
