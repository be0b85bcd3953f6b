-- ===== src/Receiver/ReceivePath.antt =====
-- `receive_path` of python/bpsk_rx.py: the stages that the options turn on, one behind the other.
use gr_ccsds.Prelude.{Option, none, some, Bool, true, false, [], ◌∷◌, Text, if◌then◌else◌}
use gr_ccsds.Receiver.Marker.{Options, Encoder}
use gr_ccsds.Receiver.Flow.{
  Queue, Build, unpacked_to_packed_bb, message_sink, message_source, file_sink, receive_path_node,
  frame_sync_node, ◌>>=◌, ◌>>◌, pure, msg_queue, make, connect, watch,
}
use gr_ccsds.Receiver.Blocks.{bpsk_frame_sync, vit27_decode, pdr, reed_solomon}

-- Without a frame sync the digits of the input are packed and put into a queue as they come.
unfoldable pub no_frame_sync : Build Queue
no_frame_sync = do
  input_msgq ← msg_queue
  packer_bb ← make unpacked_to_packed_bb
  msg_sink ← make (message_sink input_msgq)
  connect receive_path_node 0 packer_bb 0
  connect packer_bb 0 msg_sink 0
  pure input_msgq

unfoldable pub with_frame_sync : Encoder → Options → Build Queue
with_frame_sync encode o = do
  input_msgq ← bpsk_frame_sync encode o
  connect receive_path_node 0 frame_sync_node 0
  pure input_msgq

-- A stage, if its option is set; else the queue goes on as it is.
abbrev pub optional : Bool → (Queue → Build Queue) → Queue → Build Queue
optional b stage q = if b then stage q else pure q

-- options.to_file, where a path is None or a text
abbrev pub path_given : Option Text → Bool
path_given none = false
path_given (some []) = false
path_given (some (c ∷ s)) = true

abbrev pub path_or_empty : Option Text → Text
path_or_empty none = []
path_or_empty (some s) = s

-- file_sink and message_source for the last queue
unfoldable pub record_frames : Option Text → Queue → Build (Unit {0})
record_frames to_file input_msgq = do
  sink ← make (file_sink (path_or_empty to_file))
  msg_input ← make (message_source input_msgq)
  connect msg_input 0 sink 0

-- The monitor thread, or the file, or nothing.
unfoldable pub consume : Options → Queue → Build (Unit {0})
consume o input_msgq =
    if o.inspect_queue
    then watch input_msgq
    else if path_given o.to_file
    then record_frames o.to_file input_msgq
    else pure tt

unfoldable pub receive_path : Encoder → Options → Build (Unit {0})
receive_path encode o = do
  framed ← if o.frame_sync then with_frame_sync encode o else no_frame_sync
  decoded ← optional o.viterbi27 (vit27_decode o) framed
  derandomised ← optional o.derandomise (pdr o) decoded
  corrected ← optional o.reed_solomon (reed_solomon o) derandomised
  consume o corrected
