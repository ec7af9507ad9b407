-- ===== src/Api.antt =====
-- The console's client of the gateway (web/src/api).
pub mod Types
pub mod Topology
pub mod Traces
pub mod Daemon
pub mod Observability
pub mod Files
pub mod Catalog
pub mod Rpc
pub mod Stream
