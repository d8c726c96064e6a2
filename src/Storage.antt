-- ===== src/Storage.antt =====
-- app/storage/filesystem.py
pub mod Range
pub mod Resolve
pub mod Removal
mod Tests
