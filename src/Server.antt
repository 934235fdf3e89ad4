-- ===== src/Server.antt =====
-- zServer: the life of a server process.
pub mod State
pub mod Cleanup
pub mod Lifecycle
