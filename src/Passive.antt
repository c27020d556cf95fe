-- ===== src/Passive.antt =====
-- passive.py: bounded passive ingestion.
pub mod Types
pub mod Dedupe
pub mod Observation
pub mod Pipeline
mod Examples
