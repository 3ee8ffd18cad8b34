-- ===== src/Ipc.antt =====
-- src/ipc/: the frames of the daemon's socket, the requests in them, and the server's clients.
pub mod Framing
pub mod Codec
pub mod Server
