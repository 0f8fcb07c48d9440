-- ===== src/LaserClient.antt =====
-- The routing tables of the Laser client, under sdk/go/laser_client/lib.
pub mod Partition
pub mod ConfigManager
pub mod Thrift
pub mod Options
pub mod Calls
pub mod Routing
pub mod Commands
pub mod Grouping
pub mod Multi
