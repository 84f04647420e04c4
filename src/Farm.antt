-- ===== src/Farm.antt =====
-- roshi/farm: CRDT sets over several clusters.
pub mod Write
pub mod Quorum
pub mod Repair
pub mod Sets
pub mod Union
pub mod Reads
pub mod Declaration
