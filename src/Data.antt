-- ===== src/Data.antt =====
-- `Data` of src/collect/data.rs: what the collectors write and the widgets read.
pub mod Chain
pub mod NodeDetails
pub mod NodeStates
pub mod Status
pub mod System
pub mod Store
mod Examples
