-- ===== src/Acl/Fetch.antt =====
-- The fetch of a list, block by block (mvfs_clnt_get_eacl_mnp of mvfs_clnt.c,
-- mvfs_eaclhash_update_eaclh and mvfs_eaclhash_validate_eaclh of mvfs_acl.c).
pub mod Steps
pub mod Transfer
pub mod Within
pub mod Update
use mvfs.Prelude.{
  ℕ, zero, suc, Bool, false, ◌∷◌, Option, none, some, ◌==◌, ◌&&◌, ◌||◌, not, ltb, if◌then◌else◌,
  ◌+◌,
}
use mvfs.Acl.Permission.{tbs_st_ok}
use mvfs.Acl.Types.{
  Env, World, Entry, Mnode, Cursor, Reply, Timeval, SidAcl, cursor_null, tbs_st_estale, esrch,
  erange,
}

-- The variables of the update: the entry, the cursor, the outcome of the last call.
pub record Fetch : Type 0 where
  pub entry : Entry
  pub world : World
  pub cursor : Cursor
  pub error : ℕ
  pub status : ℕ

-- tbs_sid_acl_free, called for a handle that is not NULL.
unfoldable pub free_eaclh : Option SidAcl → World → World
free_eaclh none w = w
free_eaclh (some acl) w = record w { freed = acl.address ∷ w.freed }

unfoldable pub clear_eaclh : Fetch → Fetch
clear_eaclh f = record f {
  world = free_eaclh f.entry.eaclh f.world;
  entry = record f.entry { eaclh = none };
}

unfoldable pub receive : Env → Reply → Fetch → Fetch
receive env r f =
    if (r.error == 0) && (r.status == tbs_st_ok)
    then record f {
      entry = record f.entry {
        eaclh = r.eaclh;
        eacl_lut = r.eacl_mtime;
        policy_oid = r.policy_oid;
      };
      cursor = r.cursor;
      error = r.error;
      status = r.status;
    }
    else record f {
      entry = record f.entry {
        eaclh = none;
        eacl_lut = record f.entry.eacl_lut { tv_sec = env.ctime f.world.calls };
      };
      error = r.error;
      status = if r.error == 0 then r.status else tbs_st_ok;
    }

-- The call made and counted.
unfoldable pub called : Fetch → Fetch
called f = record f { world = record f.world { calls = f.world.calls + 1 } }

unfoldable pub clnt_get_eacl_mnp : Env → Mnode → Fetch → Fetch
clnt_get_eacl_mnp env mnp f =
    if mnp.has_view
    then called (receive env (env.call f.world.calls f.entry.key f.cursor f.entry.eaclh) f)
    else record f { error = esrch; status = tbs_st_ok }

unfoldable pub is_good : Fetch → Bool
is_good f = (f.error == 0) && (f.status == tbs_st_ok)

unfoldable pub is_stale : Fetch → Bool
is_stale f = (f.error == 0) && (f.status == tbs_st_estale)

-- The loop over the blocks; `restart` is what a stale list leads to, which is nothing in the second scan.
unfoldable pub blocks_loop : Env → Mnode → Option (Fetch → Fetch) → ℕ → Fetch → Fetch
blocks_loop env mnp restart zero f = f
blocks_loop env mnp restart (suc n) f =
    let g = clnt_get_eacl_mnp env mnp f in
    let more = blocks_loop env mnp restart n g in
    let ended = if is_good g then (if g.cursor.next_offset == 0 then g else more) else g in
    elim restart [
      | none ↦ ended
      | some again ↦
          if is_stale g then again (record (clear_eaclh g) { cursor = cursor_null }) else ended
    ]

unfoldable pub scan_twice : Env → Mnode → Fetch → Fetch
scan_twice env mnp f =
    blocks_loop env mnp (some (blocks_loop env mnp none env.eacl_blocks_default))
      env.eacl_blocks_default f

-- After the loop: it ran to its limit, or it failed, or it is done.
unfoldable pub finish : Fetch → Fetch
finish f =
    let over = record f {
      error = if is_good f && not (f.cursor.next_offset == 0) then erange else f.error;
    } in
    if is_good over then over else clear_eaclh over

unfoldable pub update_eaclh : Env → Mnode → World → Entry → Entry × World
update_eaclh env mnp w ep =
    let f = finish (
      scan_twice env mnp (record {
        entry = record ep { eaclh = none };
        world = free_eaclh ep.eaclh w;
        cursor = cursor_null;
        error = env.stack_error;
        status = env.stack_status;
      })) in
    (f.entry, f.world)

-- MVFS_TIMEVAL_NEWER
unfoldable pub timeval_newer : Timeval → Timeval → Bool
timeval_newer a b =
    if ltb a.tv_sec b.tv_sec then false else (ltb b.tv_sec a.tv_sec || ltb b.tv_usec a.tv_usec)

unfoldable pub is_expired : Env → Mnode → World → Entry → Bool
is_expired env mnp w ep = timeval_newer mnp.eacl_mtime ep.eacl_lut || elim ep.eaclh [
  | none ↦ ltb (ep.eacl_lut.tv_sec + env.eacl_err_timeout) (env.ctime w.calls)
  | some acl ↦ false
]

unfoldable pub validate_eaclh : Env → Mnode → World → Entry → Entry × World
validate_eaclh env mnp w ep = if is_expired env mnp w ep then update_eaclh env mnp w ep else (ep, w)
