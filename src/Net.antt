-- ===== src/Net.antt =====
-- The network layer, zNet.
pub mod Wire
pub mod Packet
pub mod Protocol
pub mod Handshake
pub mod KeyRotation
pub mod Replay
pub mod Requests
pub mod Delivery
pub mod DdosProtection
