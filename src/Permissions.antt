-- ===== src/Permissions.antt =====
-- core/src/permissions-*.ts and core/src/cubes/permissions: ownership, sharing and visibility.
pub mod Model
pub mod Effect
pub mod State
pub mod Foundation
pub mod Sharing
pub mod Groups
pub mod CubeAdmins
pub mod Capabilities
pub mod Visibility
pub mod Counts
