-- ===== src/Lib.antt =====
-- A model of the core of nizam, a small X11 desktop: the launchers, the window, the icon cache and
-- the tray of the dock, and the icon cache, the list of windows and the application menu of the
-- panel.
--
-- The parts and their files (paths from the repository's root):
-- * nizam-dock/src/config.c reads the launchers of the dock from the database or, if that gives
--   none, from the local .desktop files, and sorts them. Launcher.Exec: `str_trim`,
--   `sanitize_exec`. Launcher.Category: `map_category_token`, `pick_category_mapped`,
--   `is_allowed_category_bucket`. Launcher.Desktop: the scan of one .desktop file and of the
--   directory. Launcher.Order: `compare_launchers`. Launcher.Load: the text of the SQL query, its
--   rows, and `nizam_dock_config_load_launchers`. A C string is a list of bytes without its NUL, a
--   buffer of n bytes holds n - 1 of them. The directory is a list of names and texts, the
--   database is a function from a query to rows; sqlite, the file system and `qsort` are
--   parameters.
-- * nizam-dock/src/xcb_app.c is the window of the dock. Dock.State: the state and the operations
--   that schedule, show and hide. Dock.Xembed: the embedded icons. Dock.HitTest: what lies under
--   the pointer. Dock.Menu: the popup menu. Dock.Handlers, Dock.Buttons and Dock.Events:
--   `process_event`, with a function for each case of its switch. Dock.Loop: what the event loop
--   does before and after `poll`. Dock.Machine: the machine that the dock is to be, as a step
--   relation on six of the fields, with its laws and the proof that every handler follows it.
--   Dock.Screen: the monitor that is picked for the dock, and in Width and Place the size and
--   place of the dock and its strip. Dock.PanelWindow: the search for the panel's window, the
--   notice that is sent to it, and the places of the slide. The state is passed explicitly; what
--   is read from outside in one step (the clock, once in a step; the pointer; the answers of the X
--   server and of the tray's items) is the record `World`, and the requests that are sent are a
--   log.
-- * nizam-dock/src/icon_surface_cache.c and icon_policy.c are the icon cache of the dock,
--   Dock.Surfaces: entries on the heap that are linked by pointers and found by a hash table.
--   Name is the normalization of names, Get the lookup with its load, its eviction and its
--   failures; Lru is the list that the cache promises to be, Links, Valid, Counts and Refine
--   relate the two. The table of GLib is a parameter with its laws; what `calloc` answers is an
--   argument. Dock.Pixels has the pixels that the dock makes of loaded images and of pixmaps.
-- * nizam-dock/src/sni.c has the items of the tray, Dock.Notifier: Item with what the bus answers,
--   Files and Search for the files of icons, Refresh for an item, Registry for the list and the
--   messages that change it, MenuTree for the menu of an item. The answers of D-Bus, the file
--   system, the environment and the loading of images are parameters.
-- * nizam-panel/src/main.c has the icon cache, Panel.IconCache: an array of 64 entries, doubly
--   linked by index, the most recently used first, and in Search the lookup and the insertion.
--   Links, Unlink and Valid are about the links, Lru is the list that the cache promises to be,
--   Refine, Load and History relate the two; there the loader of an icon is a parameter. That
--   loader, `load_icon_from_name_uncached`, is in Panel.IconFiles: the paths and the loaders of one
--   file, Roots for the directories, Lookup for the search, Entry for the icon that a .desktop file
--   names. The files, the environment and the libraries that decode images are a record, `Disk`.
-- * nizam-panel/src/tasklist.c lists the windows, Panel.Tasklist, from the answers of the X
--   server, the record `Server`.
-- * nizam-panel/src/main.c also lays out the panel. Panel.Layout: the buttons of the windows; in Bar
--   the settings, the monitor, `update_layout` and `update_struts`. The widths of texts are arguments.
-- * nizam-panel/src/menu.c is the application menu, Panel.Menu: the groups of applications, the
--   rows, and where the windows of the menu stand.
-- Prelude and Text hold what the parts share; Tests has concrete inputs.
--
-- Numbers are native natural numbers, with the wrap-around of `uint64_t` counters written out. A
-- C `int` is an integer without bounds, since the program does no arithmetic on one that is near
-- its limits, but for the product of the sides of a pixmap, which the bus gives: there the wrap-
-- around of 32 bits is written out. An index of -1 and a null pointer are `none`, the windows
-- None and XCB_NONE are 0; a read outside the bytes of a pixmap is `none`. The loop of
-- `pick_category_mapped` runs on fuel, one more than the length of the text, and each turn
-- consumes a byte; the search loops of the icon cache run 64 rounds, one for each entry. The
-- search of a directory for an icon goes into the `hicolor` directory inside it, on fuel that the
-- search takes as an argument (512 rounds in Refresh): two rounds are enough where no `hicolor`
-- directory holds another, and no fuel is enough where a cut path names the same directory again.
-- Clearing the dock's cache runs as many rounds as there are entries. The cache also lists the
-- surfaces that it was given and those that it destroyed, which the C struct does not.
--
-- Not modelled: allocation failure, but in Dock.Surfaces and Dock.Notifier; drawing; what the X
-- server, D-Bus and sqlite do with requests; the creation of the dock's windows and the place of
-- what is drawn in them, which is an input of a step; the texts of the clock; the
-- reload of the configuration by a signal; the sending of D-Bus messages in sni.c and its
-- connection; the GTK programs.
pub mod Prelude
pub mod Text
pub mod Launcher
pub mod Panel
pub mod Dock
pub mod Tests
