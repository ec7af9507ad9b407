-- ===== src/Core.antt =====
-- The console's pure logic (web/src/core).
pub mod Status
pub mod Activity
pub mod Resources
pub mod DaemonMetrics
pub mod Blame
pub mod Controls
pub mod Ledger
pub mod Capture
pub mod Estimates
pub mod Fleet
pub mod Clusters
