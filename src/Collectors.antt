-- ===== src/Collectors.antt =====
-- collectors.py: the life of one collector run and of a cycle of them.
pub mod Attempts
pub mod Cycle
mod Examples
