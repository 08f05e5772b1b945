-- ===== src/Dnc.antt =====
-- The name cache of directory lookups (mvfs_dncops.c).
pub mod Types
pub mod Handles
pub mod Names
pub mod Sizes
pub mod Find
pub mod Slots
pub mod Add
pub mod Remove
pub mod Sweep
pub mod Lookup
pub mod History
pub mod Init
pub mod Steps
pub mod Tests
pub mod Invariant
