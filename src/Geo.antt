-- ===== src/Geo.antt =====
-- src/geo: the peers of the monitored nodes, the countries they are in, and the database that keeps
-- both.
pub mod Snapshot
pub mod Store
pub mod Peers
pub mod Ipinfo
mod Examples
