-- ===== src/Widgets.antt =====
-- The widgets of src/widgets: what they keep between two frames.
pub mod Chart
pub mod Helpers
pub mod Countries
pub mod Lines
pub mod Nodes
pub mod Details
pub mod Disks
mod Examples
