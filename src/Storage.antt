-- ===== src/Storage.antt =====
-- storage.py: the guard of the disk reserve and the pruning of backups.
pub mod Guard
pub mod Pruner
pub mod Tree
mod Examples
