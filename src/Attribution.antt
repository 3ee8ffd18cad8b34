-- ===== src/Attribution.antt =====
-- src/attribution/: how sure an association with the browser is, and which navigation it names.
pub mod Confidence
pub mod Correlator
