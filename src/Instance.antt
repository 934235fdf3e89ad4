-- ===== src/Instance.antt =====
-- Package zInstance: the pool of instances that are built on demand.
pub mod Pool
pub mod Acquire
pub mod Reap
pub mod Run
pub mod Change
pub mod Selection
pub mod Index
pub mod Versions
pub mod Reached
pub mod Building
pub mod Reserved
