-- ===== src/Capture.antt =====
-- src/capture/: what is taken from a packet, and the filters that a user may set.
pub mod Scan
pub mod Dns
pub mod Packet
pub mod Filter
pub mod Normalizer
