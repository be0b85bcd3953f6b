-- ===== src/BuildUtils.antt =====
-- The text generation of python/build_utils.py, and the type codes of python/build_utils_codes.py.
pub mod Codes
pub mod Substitute
pub mod Template
pub mod Types
pub mod Output
pub mod Listing
mod Tests
