-- ===== src/Randomiser.antt =====
-- The pseudo-randomiser of lib/randomiser_impl.cc, and its tests in python/qa_randomiser.py.
pub mod Defs
pub mod Register
pub mod Mask
pub mod Noise
pub mod Qa
mod Messages
mod Tests
