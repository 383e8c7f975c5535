-- ===== src/Panel.antt =====
-- nizam-panel.
pub mod IconCache
pub mod Tasklist
pub mod Menu
pub mod Layout
pub mod IconFiles
