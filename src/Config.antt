-- ===== src/Config.antt =====
-- The configuration of the receiver: `getDefaultConfig`, `getFileConfig` and the first half of `main`
-- in python/bpsk_rx.py.
pub mod Values
pub mod Dict
pub mod File
pub mod Merge
pub mod CommandLine
pub mod Switches
pub mod Main
pub mod FileLaws
pub mod MergeLaws
pub mod MainLaws
mod Tests
