-- ===== src/Version.antt =====
-- The version manager, src/module_b/version_manager.c: each file has a chain of versions, of which
-- each stores the blocks that differ from its parent's and inherits the rest. Allocation is taken
-- to succeed; the locks make each operation atomic.
pub mod Types
pub mod Lookup
pub mod Remove
pub mod Retention
pub mod Create
pub mod Read
pub mod Query
pub mod Manage
