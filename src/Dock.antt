-- ===== src/Dock.antt =====
-- nizam-dock: the window of the dock, xcb_app.c, and its icon cache, icon_surface_cache.c.
pub mod State
pub mod Xembed
pub mod HitTest
pub mod Menu
pub mod Handlers
pub mod Buttons
pub mod Events
pub mod Loop
pub mod Machine
pub mod Surfaces
pub mod Notifier
pub mod Pixels
pub mod Screen
pub mod PanelWindow
