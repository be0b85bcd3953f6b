-- ===== src/SortFrames.antt =====
-- lib/sort_frames_impl.cc and python/qa_sort_frames.py.
mod Defs
mod Ring
mod Storage
mod Flush
mod Kept
mod Invariant
mod Early
mod Sorting
mod Best
mod Late
mod Order
pub mod Qa
mod Cases
mod Tests
