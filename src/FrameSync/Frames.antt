-- ===== src/FrameSync/Frames.antt =====
-- Where the frames of python/bpsk_frame_sync.py go.
use gr_ccsds.Prelude.{
  ℕ, ◌+◌, ◌≡◌, ◌≢◌, refl, Option, none, some, Text, Result, ok, if◌then◌else◌, inl, inr, Bool-cases,
}
use gr_ccsds.Prelude.Int.{ℤ, pos}
use gr_ccsds.Receiver.Marker.{Encoder}
use gr_ccsds.Receiver.Flow.{Flow}
use gr_ccsds.Receiver.Queues.{writers, readers, one_if}
use gr_ccsds.Receiver.Joined.{untouched}
use gr_ccsds.FrameSync.Checks.{Arguments, check_arguments, check_arguments_iff}
use gr_ccsds.FrameSync.Graph.{
  sync_blocks, sync_marker, frame_sync, write_frames, write_if_decoding, path, top, build,
}

-- A graph with one queue, which one block fills, and `n` blocks or watchers read.
abbrev pub OneQueue : ℕ → Result (Unit {0} × Flow) → Type 0
OneQueue n r =
    (w : Flow) × (r ≡ ok (tt, w))
    × (w.queues ≡ 1)
    × (writers 0 w.blocks ≡ 1)
    × (readers 0 w.blocks + one_if w.watched 0 ≡ n)

some_of : (given : Option Text) → given ≢ none → (t : Text) × (given ≡ some t)
some_of none h = absurd (h refl)
some_of (some t) h = (t, refl)

-- With arguments that `main` accepts and a marker that can be read, the graph is built without an
-- exception; its one queue is filled by one block, and read by one block if the frames are to be
-- decoded. If they are not, nothing reads it: no frame reaches a file or the callback.
pub build-OneQueue :
    (encode : Encoder) (o : Arguments) (m : Text × ℤ)
    → check_arguments o ≡ ok tt
    → sync_marker encode o.access_code ≡ ok m
    → OneQueue (if o.viterbi27 then 1 else 0) (build encode o (untouched (pos 0)))
unfolding build top path frame_sync sync_blocks write_if_decoding write_frames writers readers
build-OneQueue encode o m accepted marker =
    let (_, source, sink) = (check_arguments_iff o).0.0 accepted in
    let (_, from_file) = some_of o.from_file source in
    elim (Bool-cases o.viterbi27) [
      | inl e ↦
          let (_, to_file) = some_of o.to_file (sink e) in
          rw (accepted, marker, e, from_file, to_file) (_, refl, refl, refl, refl)
      | inr e ↦ rw (accepted, marker, e, from_file) (_, refl, refl, refl, refl)
    ]
