-- ===== src/FrameSearch.antt =====
-- The search for frames in the signal, lib/frame_sync_impl.cc, on top of the buffer of SyncBuffer.
pub mod Tasks
pub mod Process
pub mod Copied
pub mod Filled
pub mod Reach
pub mod Once
pub mod Search
pub mod Work
pub mod Sound
pub mod Queued
pub mod Loop
pub mod Reached
pub mod Waits
pub mod Session
pub mod Returns
pub mod Maximum
pub mod Standing
pub mod Raises
mod Tests
