-- ===== src/Tests.antt =====
-- Runs of the definitions on small inputs, and the theorems at these inputs.
mod Script
mod Cluster
mod Pool
mod Farm
mod Sorting
mod Reads
mod Server
mod Scans
mod Schedule
mod Interleavings
mod Counter
mod Repairs
