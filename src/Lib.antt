-- ===== src/Lib.antt =====
-- gr-ccsds: the receiver for CCSDS telemetry that python/ holds, and blocks of lib/ with the tests that
-- drive them, as functions, with the theorems that make them correct.
--
-- The program is a GNU Radio module. python/bpsk_rx.py is its receiver: it reads options from three
-- sources, builds a flow graph whose stages hand frames on through message queues (frame sync, Viterbi
-- decoder, de-randomiser, Reed-Solomon decoder), and counts the frames that come out of the last queue.
-- python/crc16.py makes and checks the checksum of a frame; python/bpsk_demod.py is the demodulator in
-- front of the graph. The C++ blocks under lib/ pass messages to each other (pairs of a header and a
-- vector, and the end of the stream) or streams of items; their tests are python/qa_*.py.
--
--   Crc16          gen_and_append_crc16 and check_crc16 of python/crc16.py
--   FrameCounter   rx_callback of `main` in python/bpsk_rx.py, and the thread that calls it: the globals
--                  are a record whose fields may be undefined
--   Config         getDefaultConfig, getCommandLineConfig, getFileConfig, and of `main` the merging, the
--                  validation and the derived options, in python/bpsk_rx.py; dictionaries are
--                  association lists
--   BitText        hexstr2binstr, int2binstr, hexstr2int and the complement of the sync marker
--   Receiver       bpsk_frame_sync, vit27_decode, pdr, reed_solomon, receive_path and my_top_block of
--                  python/bpsk_rx.py: builders of a flow graph, which is the list of its blocks and edges
--   FrameSync      python/bpsk_frame_sync.py, an earlier receiver that only finds frames: callback, checks
--                  of the options, flow graph
--   Demod          bpsk_demod of python/bpsk_demod.py: variables, block parameters, setters
--   BuildUtils     python/build_utils_codes.py and python/build_utils.py: the substitution in templates, the
--                  dictionaries for it, the log of names and the files that are written
--   Tle            getTleFromFile of python/util.py, on the lines of the file
--   Pdu            the messages that the blocks exchange, and how the tests compare them
--   Randomiser     lib/randomiser_impl.cc with python/qa_randomiser.py, held against the sequence of the
--                  standard by its recurrence (Noise)
--   ReverseBits    lib/reversebits_impl.cc with python/qa_reversebits.py
--   SoftBits       lib/byte_to_softbits_bf_impl.cc, lib/soft_to_hard_message_impl.cc and
--                  lib/softbits_msg_to_bytes_b_impl.cc, with their three tests
--   ConvEncode     lib/conv_encode27_aux.cc and lib/conv_encode27_bb_impl.cc with
--                  python/qa_conv_encode27_bb.py
--   SortFrames     lib/sort_frames_impl.cc with python/qa_sort_frames.py
--   SyncBuffer     lib/frame_sync_buffer.cc: the window of the signal in which the marker is sought
--   FrameSearch    lib/frame_sync_impl.cc with lib/asm_position.cc and lib/asm_header.cc, on top of
--                  SyncBuffer: the search for the marker, the queue of frames that are copied out of the
--                  signal (Tasks, Process, Search), and the constructor, work() and stop() (Work)
--   Prelude        what these share: texts as lists of bytes, results with exceptions, integers, bits
--
-- Exceptions, of Python and of C++, are values of `Result`. A text is the list of its byte values. A
-- handler of messages is a function from the state and a message to the state and what is published. Code
-- outside of the repository is a parameter: the checksum of ccsds_swig, gru.hexint, the class
-- ccsds_conv_encode that encodes the sync marker, the test whether a text is a float, the reading of a file
-- by ConfigParser (a file is its sections, or none if it cannot be read), GNU Radio's filter design and its
-- comparison of floats, VOLK's arithmetic on samples, and for the frame search the record `Radio`: the
-- constellation's soft decisions, the estimates of the signal-to-noise ratio, arithmetic on floats, and the
-- dictionaries of PMT. The graph records which blocks are made, with which
-- arguments, and how they are joined. How optparse splits the command line into options is a parameter
-- too: the options that stand on it are given one by one.
--
-- The digits of a number `n` are found in `n` rounds of halving, which are enough since each halving
-- makes a positive number smaller; a template of `n` characters takes at most `n` rounds of the
-- substitution, since each takes a character away. The loops of the blocks run over lists, or a number
-- of rounds that is the code's own bound; the window of the frame sorter moves as many rounds as the
-- current frame is behind. The loop of work() in FrameSearch runs on as many rounds of fuel as there
-- are samples, which are enough since each round copies one sample at least. Numbers of C++ keep the
-- wrap-around at their width where the code can reach it; offsets and counters of samples do not wrap.
-- Scores and soft bits are in thousandths, and no NaN. The assertions are hypotheses. With the last
-- frame number of 64 bits the loop of the flush in lib/sort_frames_impl.cc does not end: the theorems
-- exclude that number.
--
-- Not modelled: the connections of bpsk_demod, output on the terminal, the interpolation of the
-- signal-to-noise ratio, the other C++ blocks (demodulators, the decoders, the ambiguity resolver) and the
-- configuration objects of the frame search with their tests, the test of the frame search, the vendored
-- copies of SGP4 and of other libraries, and the scripts that generate test data or prepare recordings.
pub mod Prelude
pub mod Crc16
pub mod FrameCounter
pub mod Config
pub mod BitText
pub mod Receiver
pub mod Demod
pub mod FrameSync
pub mod BuildUtils
pub mod Tle
pub mod Pdu
pub mod Randomiser
pub mod ReverseBits
pub mod SoftBits
pub mod ConvEncode
pub mod SyncBuffer
pub mod FrameSearch
pub mod SortFrames
