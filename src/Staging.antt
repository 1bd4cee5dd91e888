-- ===== src/Staging.antt =====
-- core/src/cubes/staging: the import of raw files.
pub mod Units
pub mod Csv
pub mod Jsonl
pub mod Chunks
pub mod Handlers
