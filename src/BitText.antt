-- ===== src/BitText.antt =====
-- The texts of binary digits by which the sync marker is described: `hexstr2binstr`, `int2binstr`,
-- `hexstr2int` of python/bpsk_rx.py (the same functions stand in python/bpsk_frame_sync.py), and the
-- complement of such a text.
pub mod Defs
pub mod Digits
pub mod Nibbles
pub mod Complement
mod Tests
