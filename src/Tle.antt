-- ===== src/Tle.antt =====
-- Two-line elements of a satellite: `getTleFromFile` of python/util.py.
pub mod Defs
pub mod Laws
mod Tests
