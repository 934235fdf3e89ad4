-- ===== src/Examples.antt =====
-- The theorems at concrete inputs, one file for each group of modules.
mod Packets
mod Handshakes
mod Servers
mod Services
mod Replays
mod Outboxes
mod Inboxes
mod Transactions
mod Instances
mod Waiting
mod Deliveries
mod Floods
