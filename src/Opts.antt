-- ===== src/Opts.antt =====
-- Command-line values that the program parses itself (src/opts.rs). `clap`, which splits the
-- arguments and calls these parsers, is not modelled.
pub mod Number
pub mod QuietHours
pub mod NotifyEvent
mod Examples
