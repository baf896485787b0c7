-- ===== src/Collect.antt =====
-- src/collect: what the collectors make of the answers that they get.
pub mod Snapshots
pub mod Types
pub mod Details
pub mod Endpoints
pub mod NodeState
pub mod PeerGeo
pub mod Subscription
pub mod SystemStats
mod Examples
