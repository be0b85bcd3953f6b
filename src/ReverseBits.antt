-- ===== src/ReverseBits.antt =====
-- lib/reversebits_impl.cc and python/qa_reversebits.py.
mod Defs
mod Laws
mod Stream
mod Qa
mod Tests
