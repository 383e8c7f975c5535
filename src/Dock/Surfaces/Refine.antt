-- ===== src/Dock/Surfaces/Refine.antt =====
-- The icon cache of the dock against its promise: a hit, an eviction, a new entry, and the failures.
pub mod Hit
pub mod Evict
pub mod Add
pub mod Counters
pub mod Get
pub mod Kept
pub mod History
