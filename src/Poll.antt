-- ===== src/Poll.antt =====
-- The polling of the gateway (web/src/poll).
pub mod Interval
pub mod Snapshot
pub mod FleetUsage
pub mod Topology
pub mod FleetSnapshots
