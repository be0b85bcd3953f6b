-- ===== src/ConvEncode.antt =====
-- The convolutional encoder of lib/conv_encode27_aux.cc and lib/conv_encode27_bb_impl.cc.
pub mod Defs
pub mod Bytes
pub mod Reference
mod Puncture
mod Registers
pub mod Stream
mod Work
pub mod Complete
pub mod Qa
mod Tests
