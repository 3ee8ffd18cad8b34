-- ===== src/Drivers.antt =====
-- src/drivers/: what a Lua driver declares before it is loaded.
pub mod Manifest
pub mod Sandbox
pub mod Instance
