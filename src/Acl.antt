-- ===== src/Acl.antt =====
-- Access control: the check of an access list (tbs_acl_kernel.c), the access checks and the table of
-- effective lists (mvfs_acl.c), and the call that fetches a list (mvfs_clnt.c).
pub mod Permission
pub mod Types
pub mod Fetch
pub mod Hash
pub mod Access
pub mod Sweep
pub mod Tests
