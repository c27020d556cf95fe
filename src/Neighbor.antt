-- ===== src/Neighbor.antt =====
-- neighbor.py: ARP and kernel neighbour evidence, and its bounded tracker.
pub mod Evidence
pub mod Tracker
mod Examples
