-- ===== src/ServiceRouter.antt =====
-- The service router of the Go SDK, sdk/go/common/service_router: what a server is, how servers
-- are balanced, pooled, stored and registered.
pub mod Server
pub mod LoadBalance
pub mod Pool
pub mod RouterDb
pub mod Node
pub mod Registry
pub mod Ticking
pub mod Router
