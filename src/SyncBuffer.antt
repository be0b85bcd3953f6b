-- ===== src/SyncBuffer.antt =====
-- The buffer of the frame synchronisation, lib/frame_sync_buffer.cc.
pub mod Defs
pub mod Queries
pub mod Writes
pub mod Holds
pub mod Window
mod Stale
mod Tests
