-- ===== src/Relations.antt =====
-- How cubes see one another without knowing one another: the links of the spaces
-- (core/src/kernel/space.ts) and the registry that follows them (core/src/registry-runtime.ts,
-- core/src/relational-enforcement.ts).
pub mod Spaces
pub mod Links
pub mod Registry
pub mod Reading
pub mod Captures
