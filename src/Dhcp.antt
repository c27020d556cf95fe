-- ===== src/Dhcp.antt =====
-- dhcp.py: the option list, the message and the tracker of leases.
pub mod Options
pub mod Message
pub mod Leases
mod Examples
