-- ===== src/Receiver.antt =====
-- The flow graph of the receiver: the blocks of python/bpsk_rx.py.
pub mod Flow
pub mod Marker
pub mod Blocks
pub mod ReceivePath
pub mod Top
pub mod Threshold
pub mod Queues
pub mod Stages
pub mod Joined
pub mod Sources
mod Tests
