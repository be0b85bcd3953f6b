-- ===== src/FrameSync.antt =====
-- The receiver of python/bpsk_frame_sync.py, which has only a frame sync for a convolutionally encoded
-- marker, and hands the frames to a file.
pub mod Count
pub mod Graph
pub mod Frames
pub mod Checks
mod Tests
