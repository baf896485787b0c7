-- ===== src/Notify.antt =====
-- Telegram notifications (src/notify.rs). The HTTP client and the JSON of the requests are not
-- modelled: a delivery ends in the list of texts that are handed to `send_message`.
pub mod Filter
pub mod Template
pub mod State
pub mod Summary
pub mod Config
pub mod Delivery
pub mod Daily
mod Examples
