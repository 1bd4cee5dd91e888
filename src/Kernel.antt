-- ===== src/Kernel.antt =====
-- The kernel's contracts: what a list query is, and the store that answers it.
pub mod Platform
pub mod Numbers
pub mod Paging
pub mod Where
pub mod Table
pub mod ListQuery
pub mod SortKey
