-- ===== src/Mounting.antt =====
-- The mounting of cubes (core/src/kernel): what a manifest may say, who may be switched off, and
-- how the mounted cubes speak to one another.
pub mod Names
pub mod Manifest
pub mod Bus
pub mod Switches
pub mod Commands
pub mod Migration
pub mod Ledger
pub mod Routes
pub mod Mount
