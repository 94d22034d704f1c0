-- ===== src/Tests.antt =====
-- The theorems at concrete inputs.
mod Storage
mod Logs
mod Counters
mod Versions
mod Creations
mod Caches
mod Backups
mod Sharing
mod Checks
mod Paths
