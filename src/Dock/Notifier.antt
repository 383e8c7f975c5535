-- ===== src/Dock/Notifier.antt =====
-- The status notifier items of the dock, nizam-dock/src/sni.c.
pub mod Item
pub mod Files
pub mod Search
pub mod Found
pub mod Refresh
pub mod Registry
pub mod MenuTree
