-- ===== src/Dnc/Steps/Running.antt =====
-- The invariant of threads on the cache, step by step (mvfs_dncops.c).
