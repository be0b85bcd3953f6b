-- ===== src/FrameSync/Graph.antt =====
-- The hierarchical blocks of python/bpsk_frame_sync.py: the frame sync, the block that writes the frames
-- to a file, the receive path and the top block; and `main`, which builds them.
use gr_ccsds.Prelude.{
  ◌*◌, Option, none, some, Text, codes, length, Result, ok, err, type_error, or_raise,
  if◌then◌else◌,
}
use gr_ccsds.Prelude.Int.{ℤ, pos, negsuc, eq_ℤ}
use gr_ccsds.BitText.Defs.{hexstr2binstr, complement}
use gr_ccsds.Receiver.Marker.{Encoder, encoded_marker}
use gr_ccsds.Receiver.Flow.{
  Queue, Build, correlate_access_code_bb, framer_sink_dual, msg_source, file_sink, file_source,
  null_source, packed_to_unpacked_bb, frame_sync_node, receive_path_node, ◌>>=◌, ◌>>◌, pure, lift,
  msg_queue, make, connect,
}
use gr_ccsds.FrameSync.Checks.{Arguments, check_arguments}

-- The threshold of the correlators: 12 by default.
unfoldable pub threshold_or_default : ℤ → ℤ
threshold_or_default threshold = if eq_ℤ threshold (negsuc 0) then pos 12 else threshold

-- The blocks of the frame sync, for an encoded marker; the result is the output queue.
unfoldable pub sync_blocks : ℤ → Text → Build Queue
sync_blocks threshold marker = do
  output_msgq ← msg_queue
  correlator ← make (correlate_access_code_bb marker threshold)
  inv_correlator ← make (correlate_access_code_bb (complement marker) threshold)
  framer_sink ← make (framer_sink_dual output_msgq (pos 2550) (pos 8))
  connect frame_sync_node 0 correlator 0
  connect correlator 0 framer_sink 0
  connect frame_sync_node 1 inv_correlator 0
  connect inv_correlator 0 framer_sink 1
  pure output_msgq

abbrev pub code_or_default : Option Text → Text
code_or_default none = codes "1ACFFC1D"
code_or_default (some code) = code

-- The marker as the correlators look for it. The code is first read as a text of binary digits, which
-- is dropped.
unfoldable pub sync_marker : Encoder → Option Text → Result (Text × ℤ)
sync_marker encode given = elim (hexstr2binstr (code_or_default given) none) [
  | err e ↦ err e
  | ok _ ↦ encoded_marker encode (code_or_default given) (length (code_or_default given) * 4)
]

-- bpsk_frame_sync(access_code, callback, threshold): the callback is not used.
unfoldable pub frame_sync : Encoder → Option Text → ℤ → Build Queue
frame_sync encode access_code threshold = do
  marker ← lift (sync_marker encode access_code)
  sync_blocks (threshold_or_default threshold) marker.0

-- vit27_decode(options, input_msgq): the frames are written to the file.
unfoldable pub write_frames : Text → Queue → Build (Unit {0})
write_frames to_file input_msgq = do
  pkt_input ← make (msg_source input_msgq)
  sink ← make (file_sink to_file)
  connect pkt_input 0 sink 0

unfoldable pub write_if_decoding : Arguments → Queue → Build (Unit {0})
write_if_decoding o q =
    if o.viterbi27
    then (do to_file ← lift (or_raise type_error o.to_file); write_frames to_file q)
    else pure tt

-- receive_path(rx_callback, options)
unfoldable pub path : Encoder → Arguments → Build (Unit {0})
path encode o = do
  output_msgq ← frame_sync encode o.access_code o.threshold
  connect receive_path_node 0 frame_sync_node 0
  connect receive_path_node 1 frame_sync_node 1
  write_if_decoding o output_msgq

-- my_top_block(rx_callback, options)
unfoldable pub top : Encoder → Arguments → Build (Unit {0})
top encode o = do
  source ←
      make (elim o.from_file [ none ↦ null_source | some file ↦ file_source file o.repeat_file ])
  path encode o
  unpacker_bb ← make packed_to_unpacked_bb
  connect source 0 unpacker_bb 0
  connect unpacker_bb 0 receive_path_node 0
  connect unpacker_bb 0 receive_path_node 1

-- `main`, up to the start of the flow graph.
unfoldable pub build : Encoder → Arguments → Build (Unit {0})
build encode o = do lift (check_arguments o); top encode o
