-- ===== src/Lib.antt =====
-- Verification of the multi-version file system (MVFS).
--
-- The file system keeps its caches in data structures of its own. This library models four of
-- them and the conversions of identities and error codes: the name cache of mvfs_dncops.c, which
-- maps names in directories to objects; the readdir cache of mvfs_rdc.c; the table of effective
-- access lists of mvfs_acl.c, with the access checks that it serves; and the split-ordered hash
-- table of mvfs_sohash_table.c and mvfs_sohash_table.h, a lock-free table of reversed keys in one
-- sorted list, with hazard pointers for the entries in use.
--
-- Sohash/Bits: keys (sohash_reverse_bit, sohash_regularkey, sohash_sentinelkey, unsetmsb). A key is
--   a 32-bit word, the masks are written as divisions and remainders by powers of two.
-- Sohash/Arrays: sohash_sort_arr and sohash_search_arr over lists of keys.
-- Sohash/Types: the state. The linked list is a list of entries from bucket 0 on; an address is a
--   number that tells entries apart; a slot of a segment holds an address. `Run` has the ways a run
--   ends: a result, MDKI_PANIC, an access outside an array, a write that cuts the list, no fuel.
-- Sohash/Hazard: hazard references, the scan and the release of retired entries (sohash_hp_get,
--   sohash_hp_release, sohash_retire_node, sohash_hprec_scan, sohash_flush_hp_list).
-- Sohash/Chain: sohash_list_find, sohash_list_insert, sohash_list_delete.
-- Sohash/Buckets: sohash_get_bucket, sohash_set_bucket, sohash_alloc_node,
--   sohash_initialize_bucket.
-- Sohash/Init and Sohash/Operations: sohash_init_hashtable, sohash_insert_entry,
--   sohash_find_entry, sohash_delete_entry.
-- Sohash/Invariant: what holds of a table between the routines, and that the set-up of buckets
--   keeps it. Sohash/Find, Sohash/Insert and Sohash/Init/Ready: what lookups, insertions and
--   initialization come to.
--
-- Rdc: the readdir cache of an mnode (mvfs_rddir_cache_flush, mvfs_rddir_cache_destroy,
--   mvfs_rddir_cache_get, mvfs_rddir_cache_enter). Rdc/Blocks is about the memory of its blocks,
--   Rdc/Lookup about what lookups find. The copy to the user is a parameter of the lookup.
--
-- Credutl: the conversions between 32-bit user and group identities and security identifiers of
--   credutl_kernel.c.
--
-- Acl/Permission: the check of an access list against credentials (tbs_acl_kernel.c:
--   tbs_acl_add_and_check_perms, tbs_sid_acl_creds_is_user, tbs_sid_acl_creds_has_group,
--   tbs_sid_acl_check_permission_creds; mvfs_acl.c: mvfs_groupmember).
-- Acl/Types and Acl/Fetch: the state of the table of effective lists, and the fetch of a list in
--   blocks (mvfs_clnt.c: mvfs_clnt_get_eacl_mnp; mvfs_acl.c: mvfs_eaclhash_update_eaclh,
--   mvfs_eaclhash_validate_eaclh). Acl/Fetch/Transfer says what a whole transfer is.
-- Acl/Hash: the table (mvfs_acl_init, mvfs_eaclhash_find_entry, mvfs_eaclhash_add_entry,
--   mvfs_eaclhash_remove_entry, mvfs_eaclhash_free_entry, mvfs_eaclhash_get,
--   mvfs_eaclhash_release, mvfs_eaclhash_validate, mvfs_acl_cache, mvfs_acl_uncache). Entries
--   stand in a memory of addresses, chains are lists of addresses, and mnodes hold addresses; an
--   access to an address without an entry is `none`, a fault. Acl/Hash/Shared reads the table as
--   a map from keys to counts.
-- Acl/Access: mvfs_chkaccess_acl, mvfs_chkaccess_modebits, mvfs_chkaccess.
-- Acl/Sweep: mvfs_acl_inval_oid and mvfs_acl_free. The reply of the view server, the time, the
--   allocator and the hash of an identifier are the fields of `Env`. Each routine runs under the
--   lock of its chain, and the mnode's own lock. The loop over blocks has the limit of the source
--   (100) as a number that may be any; a stale list starts the second and last scan.
--
-- Errno: tbs_status2errno and tbs_errno2status of tbs_errno.c; a switch is a list of cases, the
--   errno values are those of Linux.
--
-- Dnc/Types and Dnc/Slots: the state of the name cache (struct mfs_dncent of mvfs_dnc.h) and the
--   sections that run under its locks. The array of entries is a function of the index, a hash
--   chain and an LRU list are lists of indices. `take_out` takes an entry from its lists and sets
--   in_trans, `put_back` clears it and puts the entry at the front of its LRU list (NC_RMHASH_LOCKED,
--   NC_RMLRU_LOCKED, NC_INSLRU_LOCKED), `fill` and `link` enter a new name; `recycle` takes an entry
--   out, releases what it holds and puts it back.
-- Dnc/Find: mfs_dncfind and its tests of a name and of build handles.
-- Dnc/Add: mvfs_dncadd_subr with mfs_dnc_inval_case_synonyms. Dnc/Add/Kept, Entered, Refreshed
--   and Subr say what the branches leave in the cache.
-- Dnc/Remove: mfs_dncremove and mfs_dncremove_one.
-- Dnc/Lookup: mvfs_dnclookup_subr, mvfs_rvclookup and mvfs_rvcenter.
-- Dnc/Sweep: mfs_dnc_invalvp, mfs_dnc_invalvw, mvfs_rvcflush, mfs_dnc_inval_obj_not_found,
--   mvfs_dncflush_subr, mfs_dnc_flushvw, mfs_dnc_add_flag. Dnc/Sweep/Stale, Missed and Flushed are
--   about what the passes leave.
-- Dnc/Names: mfs_namehash, MFS_DNCHASH and mvfs_ansi_strcasecmp of mvfs_utils.c.
-- Dnc/Sizes: mvfs_find_dnchashsize. Dnc/Handles: the build handles that an entry keeps.
-- Dnc/History: mfs_hmname and mfs_hmappend of mvfs_utils.c. Dnc/Init: mvfs_dnclist_init.
-- Dnc/Invariant: what holds of the cache between sections. Dnc/Steps: the locked
--   sections of several threads as a step relation, in any order; a thread looks at an entry without
--   locks, then locks the chain that it read, and has at most one entry in transition. A section that
--   takes an entry from a chain whose lock the thread does not have is left out; mvfs_dncadd_subr (at
--   get_lru), mvfs_dncflush_subr and mfs_dnc_flushvw can run into it. The view holds that lookups
--   hand to their callers are counted apart from those of the cache.
--   A pointer is a number, 0 for NULL, and a u_long has 64 bits. No replacement of the arrays is in
--   progress (mvfs_old_dnc is NULL). The hash of an identifier is an argument of the routines of the
--   root version cache. Outside Dnc/Steps a routine runs to its end before the next.
--
-- Xdr: the decoding of the blocks in which an access list crosses the wire (XDR_DECODE in
--   xdr_tbs_acl_cooked_info_block of tbs_acl_c_xdr_kernel.c). A failure within the entries ends in an
--   access outside the array or in a loop that does not end. Acl/Fetch takes the reply of the view
--   server, in which these blocks come, as a parameter.
--
-- A routine of the hash takes the table and returns it with its result. The memory allocator of
-- the kernel is a parameter (`Host`): it grants or refuses each request by its number. Where a
-- theorem allows a failure for want of memory, it is with a host that refuses some request, in
-- the run at hand or not. Assertions are left out, as in production builds, but for the one in
-- sohash_insert_entry against EEXIST, which `Host` switches. The callback that compares entries
-- is a parameter of the routines that call it. Routines run to their end one at a time: a
-- compare-and-swap on a value just read succeeds, and the retry loops around it run once. The
-- delete bit of a pointer, which is only set between two steps of sohash_list_delete, is then
-- never seen by another routine.
--
-- Fuel: mvfs_find_dnchashsize counts up to a prime; from a size below 18181, 18181 rounds are
-- enough, since 18181 is prime. sohash_initialize_bucket calls itself on the parent of a bucket,
-- which has one bit less; 33 rounds are enough for a 32-bit index. A search of an array of n keys
-- has n + 1 rounds.
--
-- Not modelled: the encoding of blocks, which refuses every entry (xdr_tbs_sid_acl_id_t returns
-- FALSE unless it decodes), sohash_cleanup_hashtable and sohash_cleanup_bucket, sohash_hprec_helpscan
-- (nothing calls it), mfs_dnclookup, mfs_dnc_getent, mvfs_dnc_count, mvfs_dncinit and
-- mvfs_dnc_setcaches, log messages and statistics, interleavings of threads other than those of
-- Dnc/Steps. The other parts of the file system, above all its calls of the kernel, the RPC
-- transport and generated code, are not modelled.
pub mod Prelude
pub mod Sohash
pub mod Rdc
pub mod Credutl
pub mod Dnc
pub mod Acl
pub mod Errno
pub mod Xdr
