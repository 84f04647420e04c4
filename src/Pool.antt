-- ===== src/Pool.antt =====
-- roshi/pool/pool.go: sharding of keys over Redis instances.
pub mod Connections
pub mod Sharding
pub mod Hashes
