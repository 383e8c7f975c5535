-- ===== src/Launcher.antt =====
-- The launchers of the dock, nizam-dock/src/config.c: their commands, categories and sources.
pub mod Exec
pub mod Category
pub mod Desktop
pub mod Order
pub mod Load
