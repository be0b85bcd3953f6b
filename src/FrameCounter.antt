-- ===== src/FrameCounter.antt =====
-- The statistics that the receiver keeps for each frame: `rx_callback` in `main` of python/bpsk_rx.py, and
-- the thread that calls it.
pub mod Defs
pub mod Loss
pub mod Lock
pub mod Watch
pub mod Run
mod Tests
