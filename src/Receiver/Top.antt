-- ===== src/Receiver/Top.antt =====
-- `my_top_block` of python/bpsk_rx.py: the receive path behind its source of samples.
use gr_ccsds.Prelude.{none, some, ◌++◌, Text, codes, text_eq, lower, if◌then◌else◌}
use gr_ccsds.Receiver.Marker.{Options, Encoder}
use gr_ccsds.Receiver.Flow.{
  Build, bpsk_demod, mpsk_demod, file_sink, file_source, throttle, null_source,
  packed_to_unpacked_bb, unpacked_to_packed_bb, receive_path_node, ◌>>=◌, ◌>>◌, make, connect,
}
use gr_ccsds.Receiver.ReceivePath.{receive_path}

-- The demodulator, whose output is also recorded in a file that is named by the time `now`.
unfoldable pub live_source : Text → Options → Build (Unit {0})
live_source now o = do
  source ← make (
      if text_eq (lower o.sync) (codes "viterbi")
      then mpsk_demod 2 o.centre_freq o.usrp_gain o.sps o.sym_rate
      else bpsk_demod o.centre_freq o.usrp_gain o.sps o.sym_rate)
  connect source 0 receive_path_node 0
  gr_file_sink ← make (file_sink (o.file_path ++ now ++ codes ".dat"))
  packer ← make unpacked_to_packed_bb
  connect source 0 packer 0
  connect packer 0 gr_file_sink 0

-- The throttle is made and not connected.
unfoldable pub recorded_source : Text → Options → Build (Unit {0})
recorded_source path o = do
  source ← make (file_source path o.repeat_file)
  unpacker_bb ← make packed_to_unpacked_bb
  _ ← make (throttle 1000000)
  connect source 0 unpacker_bb 0
  connect unpacker_bb 0 receive_path_node 0

unfoldable pub no_source : Build (Unit {0})
no_source = do source ← make null_source; connect source 0 receive_path_node 0

unfoldable pub my_top_block : Encoder → Text → Options → Build (Unit {0})
my_top_block encode now o = do
  receive_path encode o
  if o.from_usrp
      then live_source now o
      else elim o.from_file [ none ↦ no_source | some path ↦ recorded_source path o ]
