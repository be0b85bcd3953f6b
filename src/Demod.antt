-- ===== src/Demod.antt =====
-- The demodulator with a Costas loop: `bpsk_demod` of python/bpsk_demod.py, its variables, the blocks
-- that they parametrise, and the setters that are to keep the two together.
pub mod Defs
pub mod Setters
pub mod Laws
pub mod Rates
mod Tests
