-- ===== src/Mdns.antt =====
-- mdns.py: the observer of multicast DNS responses.
pub mod Name
pub mod Message
pub mod Fields
pub mod Cache
mod Examples
