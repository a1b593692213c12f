-- ===== src/Versions.antt =====
-- Version parsing and comparison: backend/app/version_intelligence.py.
pub mod Order
pub mod Characters
pub mod Schemes
pub mod Debian
pub mod Compare
pub mod Range
pub mod Examples
