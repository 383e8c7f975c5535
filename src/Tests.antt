-- ===== src/Tests.antt =====
-- Concrete inputs, and what the theorems say of them.
mod Launchers
mod Icons
mod Windows
mod Docks
mod Surfaces
mod Notifiers
mod IconFiles
mod Screens
mod Bars
