-- ===== src/SoftBits.antt =====
-- The blocks between bytes and soft bits: lib/byte_to_softbits_bf_impl.cc, which makes soft bits,
-- lib/soft_to_hard_message_impl.cc and lib/softbits_msg_to_bytes_b_impl.cc, which decide them; and their
-- tests in python/.
mod Defs
mod Bits
mod Stream
mod Queue
mod Qa
mod Cases
mod Tests
