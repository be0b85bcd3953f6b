-- ===== src/FrameCounter/Watch.antt =====
-- `_queue_watcher_thread.run` of python/bpsk_rx.py over the messages that the last queue gives it: the
-- checksum of each is checked if the options say so, and the callback is called with the answer.
use gr_ccsds.Prelude.{
  ℕ, ◌≡◌, refl, ◌∙◌, inl, inr, Bool, true, false, List, [], ◌∷◌, Text, Result, ok, err, ◌>>=◌,
  if◌then◌else◌,
}
use gr_ccsds.Crc16.Defs.{check_crc16}
use gr_ccsds.Crc16.Laws.{check_crc16_total}
use gr_ccsds.FrameCounter.Defs.{Globals, rx_callback, receive}

module _ (crc16 : Text → ℕ) where
  -- The value of `ok` that the callback gets.
  unfoldable pub verdict : Bool → Text → Result Bool
  verdict frame_check payload =
      if frame_check then (do answer ← check_crc16 crc16 payload; ok answer.0) else ok false

  -- What the callback prints of each message, the value of `ok` and the frames counted by then, is left
  -- behind with the globals.
  unfoldable pub watch : Bool → List Text → Globals → Result (List Bool × Globals)
  watch frame_check [] g = ok ([], g)
  watch frame_check (payload ∷ rest) g = do
    checked ← verdict frame_check payload
    g' ← rx_callback payload g
    (answers, g'') ← watch frame_check rest g'
    ok (checked ∷ answers, g'')

  verdict_total :
      (frame_check : Bool) (payload : Text) → (b : Bool) × (verdict frame_check payload ≡ ok b)
  unfolding verdict
  verdict_total false payload = (false, refl)
  verdict_total true payload = elim (check_crc16_total crc16 payload) [
    | inl (_, e) ↦ (false, rw e refl)
    | inr (_, b, e) ↦ (b, rw e refl)
  ]

  -- The globals of a result of `watch`.
  abbrev pub globals_of : Result (List Bool × Globals) → Result Globals
  globals_of r = elim r [ err e ↦ err e | ok (answers, g) ↦ ok g ]

  globals_of-answer :
      (b : Bool) (r : Result (List Bool × Globals))
      → globals_of (r >>= λ p. ok (b ∷ p.0, p.1)) ≡ globals_of r
  globals_of-answer b (ok p) = refl
  globals_of-answer b (err e) = refl

  globals_of-then :
      (r : Result Globals) (m : Globals → Result (List Bool × Globals))
      (n : Globals → Result Globals)
      → ((g : Globals) → globals_of (m g) ≡ n g)
      → globals_of (r >>= m) ≡ (r >>= n)
  globals_of-then (ok g) m n h = h g
  globals_of-then (err e) m n h = refl

  -- The frames counted do not depend on their checksums: whether the frame check is on or off, and
  -- whatever the messages, the watcher leaves the globals, or ends in the exception, that the callback
  -- alone would.
  pub watch-receive :
      (frame_check : Bool) (ps : List Text) (g : Globals)
      → globals_of (watch frame_check ps g) ≡ receive ps g
  unfolding watch receive
  watch-receive frame_check [] g = refl
  watch-receive frame_check (p ∷ ps) g =
      let (b, checked) = verdict_total frame_check p in
      rw checked (
        globals_of-then (rx_callback p g) _ _
          (λ g'. globals_of-answer b (watch frame_check ps g') ∙ watch-receive frame_check ps g'))
