-- ===== src/Crc16.antt =====
-- python/crc16.py. The checksum itself, `ccsds_swig.crc16`, and `gru.hexint` of GNU Radio are not
-- code of the repository: they are the section's parameters.
pub mod Defs
pub mod Laws
mod Tests
