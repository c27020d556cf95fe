-- ===== src/LinkLayer.antt =====
-- link_layer.py: the parsers of LLDP and CDP.
pub mod Latest
pub mod Tlvs
pub mod Values
pub mod Lldp
pub mod Cdp
mod Examples
