-- ===== src/Control.antt =====
-- The control service, under control/service.
pub mod TableShardAssigner
pub mod ShardManager
