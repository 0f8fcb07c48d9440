-- ===== src/Examples.antt =====
-- The theorems at concrete inputs, with tests of the definitions.
mod LoadBalance
mod Pool
mod RouterDb
mod Registry
mod LaserClient
mod Control
mod Router
mod Cluster
mod Calls
mod Batches
mod Shards
