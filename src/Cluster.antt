-- ===== src/Cluster.antt =====
-- roshi/cluster/cluster.go
pub mod Script
pub mod Buckets
pub mod Conn
pub mod Pipeline
pub mod Range
pub mod Scatter
pub mod Score
pub mod Keys
pub mod Select
pub mod Interleavings
