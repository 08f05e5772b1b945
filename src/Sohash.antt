-- ===== src/Sohash.antt =====
-- The split-ordered hash table of mvfs_sohash_table.c: its keys, its arrays, its state, hazard
-- pointers, list, buckets and operations.
pub mod Bits
pub mod Arrays
pub mod Types
pub mod Hazard
pub mod Chain
pub mod Buckets
pub mod Init
pub mod Operations
pub mod Invariant
pub mod Find
pub mod Insert
pub mod Tests
