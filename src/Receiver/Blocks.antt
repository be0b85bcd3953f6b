-- ===== src/Receiver/Blocks.antt =====
-- The hierarchical blocks of python/bpsk_rx.py: frame sync, Viterbi decoder, de-randomiser and
-- Reed-Solomon decoder. Each stage behind the first reads the queue of the one before it and fills a
-- queue of its own.
use gr_ccsds.Prelude.Int.{ℤ, pos, ◌-ℤ◌}
use gr_ccsds.Prelude.{Text}
use gr_ccsds.BitText.Defs.{hexstr2int, complement}
use gr_ccsds.Receiver.Marker.{Options, Encoder, marker_of, threshold_of, floor_div}
use gr_ccsds.Receiver.Flow.{
  Queue, Build, correlate_access_code_bb, framer_sink_dual, viterbi27_bb, randomiser_bb,
  rs_decode_bb, message_source, packed_to_unpacked_bb, frame_sync_node, ◌>>=◌, ◌>>◌, pure, lift,
  msg_queue, make, connect, get_bits, set_bits,
}

-- The blocks of the frame sync, for a marker and its length; the result is the output queue.
unfoldable pub frame_sync_blocks : Options → Text × ℤ → Build Queue
frame_sync_blocks o marker = do
  let threshold = threshold_of o marker.1
  output_msgq ← msg_queue
  correlator ← make (correlate_access_code_bb marker.0 threshold)
  inv_correlator ← make (correlate_access_code_bb (complement marker.0) threshold)
  framer_sink ← make (framer_sink_dual output_msgq o.frame_syms o.asm_syms)
  connect frame_sync_node 0 correlator 0
  connect correlator 0 framer_sink 0
  connect frame_sync_node 0 inv_correlator 0
  connect inv_correlator 0 framer_sink 1
  pure output_msgq

-- bpsk_frame_sync(options)
unfoldable pub bpsk_frame_sync : Encoder → Options → Build Queue
bpsk_frame_sync encode o = do marker ← lift (marker_of encode o); frame_sync_blocks o marker

-- The blocks of the Viterbi decoder, for the marker as a number.
unfoldable pub viterbi_blocks : Options → Queue → Queue → ℤ → Build Queue
viterbi_blocks o input_msgq output_msgq code = do
  decoder ← make (viterbi27_bb output_msgq o.frame_syms code (pos o.code_length))
  message_bits ← get_bits
  set_bits (floor_div message_bits 2)
  msg_input ← make (message_source input_msgq)
  unpacker_bb ← make packed_to_unpacked_bb
  connect msg_input 0 unpacker_bb 0
  connect unpacker_bb 0 decoder 0
  pure output_msgq

-- vit27_decode(options, input_msgq)
unfoldable pub vit27_decode : Options → Queue → Build Queue
vit27_decode o input_msgq = do
  output_msgq ← msg_queue
  code ← lift (hexstr2int o.access_code)
  viterbi_blocks o input_msgq output_msgq code

-- pdr(options, input_msgq)
unfoldable pub pdr : Options → Queue → Build Queue
pdr o input_msgq = do
  output_msgq ← msg_queue
  message_bits ← get_bits
  randomiser ← make (randomiser_bb output_msgq message_bits 0xa9 0xff 7)
  msg_input ← make (message_source input_msgq)
  unpacker_bb ← make packed_to_unpacked_bb
  connect msg_input 0 unpacker_bb 0
  connect unpacker_bb 0 randomiser 0
  pure output_msgq

-- reed_solomon(options, input_msgq)
unfoldable pub reed_solomon : Options → Queue → Build Queue
reed_solomon o input_msgq = do
  output_msgq ← msg_queue
  message_bits ← get_bits
  rs ← make (rs_decode_bb output_msgq message_bits)
  set_bits (message_bits -ℤ pos 1280)
  msg_input ← make (message_source input_msgq)
  connect msg_input 0 rs 0
  pure output_msgq
