-- ===== src/ServiceRouter/LoadBalance.antt =====
-- load_balance.go: one module for each way to choose a server from a list.
pub mod Ip
pub mod Simple
pub mod Near
pub mod StaticWeight
pub mod ConfigurableWeight
