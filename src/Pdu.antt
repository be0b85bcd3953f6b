-- ===== src/Pdu.antt =====
-- The messages that the blocks of lib/ exchange, a block as a handler of them, and the experiments that
-- the tests in python/ make with one block.
pub mod Message
pub mod Experiment
pub mod Accepts
pub mod Stateless
