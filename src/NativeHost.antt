-- ===== src/NativeHost.antt =====
-- The native messaging host: the browser's messages on one side, the daemon's socket on the other.
pub mod Framing
pub mod Client
pub mod Host
