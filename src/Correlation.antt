-- ===== src/Correlation.antt =====
-- correlation.py: device correlation by union and find over stable identifiers.
pub mod Identity
pub mod Evidence
pub mod UnionFind
pub mod Merge
pub mod Conflicts
pub mod Devices
mod Examples
