-- ===== src/Acl/Types.antt =====
-- The state of the table of effective access lists (mvfs_acl.h, view_base.h), and what the kernel and
-- the view server give.
use mvfs.Prelude.{ℕ, Bool, true, false, List, Option, ◌==◌, ◌&&◌, ◌+◌, ◌%◌, ◌^◌}
use mvfs.Acl.Permission.{CookedEnt}

abbrev pub tbs_st_estale : ℕ
tbs_st_estale = 1087

abbrev pub esrch : ℕ
esrch = 3

abbrev pub enomem : ℕ
enomem = 12

abbrev pub eacces : ℕ
eacces = 13

abbrev pub erange : ℕ
erange = 34

pub record Timeval : Type 0 where
  pub tv_sec : ℕ
  pub tv_usec : ℕ

abbrev pub epoch : Timeval
epoch = record { tv_sec = 0; tv_usec = 0 }

pub record Cursor : Type 0 where
  pub eacl_mtime : Timeval
  pub next_offset : ℕ

abbrev pub cursor_null : Cursor
cursor_null = record { eacl_mtime = epoch; next_offset = 0 }

-- A list in memory: its address and its entries.
pub record SidAcl : Type 0 where
  pub address : ℕ
  pub ents : List CookedEnt

pub data ViewType : Type 0 where
  unix : ViewType
  windows : ViewType

abbrev view_type_value : ViewType → ℕ
view_type_value ViewType.unix = 0
view_type_value ViewType.windows = 1

pub record Key : Type 0 where
  pub rolemap_oid : ℕ
  pub replica_uuid : ℕ
  pub view_type : ViewType

-- An entry without its links; the chains have its address.
pub record Entry : Type 0 where
  pub key : Key
  pub refcnt : ℕ
  pub eacl_lut : Timeval
  pub policy_oid : ℕ
  pub eaclh : Option SidAcl

-- What an mnode of a VOB has to do with its list: whether it has a view, the attributes, the handle.
pub record Mnode : Type 0 where
  pub has_view : Bool
  pub windows_view : Bool
  pub is_vob : Bool
  pub is_dir : Bool
  pub vobuuid : ℕ
  pub rolemap_oid : ℕ
  pub eacl_mtime : Timeval
  pub mn_aclh : Option ℕ

-- What comes back from a call of the view server.
pub record Reply : Type 0 where
  pub error : ℕ
  pub status : ℕ
  pub cursor : Cursor
  pub eaclh : Option SidAcl
  pub eacl_mtime : Timeval
  pub policy_oid : ℕ

-- The counters of the calls made so far, and the lists that were freed.
pub record World : Type 0 where
  pub calls : ℕ
  pub allocs : ℕ
  pub freed : List ℕ

pub record Table : Type 0 where
  pub eaclhash_size : ℕ
  pub chain : ℕ → List ℕ
  pub entry_cnt : ℕ → ℕ
  pub heap : ℕ → Option Entry
  pub world : World

-- The view server's reply and the time by the number of the call, the allocator by the number of
-- the request and the addresses in use, the hash of an identifier, the two constants that a debugger
-- can change, and what the stack held where variables stand that have no value yet.
pub record Env : Type 0 where
  pub call : ℕ → Key → Cursor → Option SidAcl → Reply
  pub ctime : ℕ → ℕ
  pub kmem_alloc : ℕ → (ℕ → Option Entry) → Option ℕ
  pub uuid_to_hash32 : ℕ → ℕ
  pub eacl_blocks_default : ℕ
  pub eacl_err_timeout : ℕ
  pub eaclhash_size_default : ℕ
  pub stack_error : ℕ
  pub stack_status : ℕ

abbrev pub view_type_eq : ViewType → ViewType → Bool
view_type_eq ViewType.unix ViewType.unix = true
view_type_eq ViewType.unix ViewType.windows = false
view_type_eq ViewType.windows ViewType.unix = false
view_type_eq ViewType.windows ViewType.windows = true

unfoldable pub key_eq : Key → Key → Bool
key_eq a b =
    (a.rolemap_oid == b.rolemap_oid)
    && ((a.replica_uuid == b.replica_uuid) && view_type_eq a.view_type b.view_type)

unfoldable pub eaclhash : Env → ℕ → Key → ℕ
eaclhash env size key =
    (env.uuid_to_hash32 key.rolemap_oid
      + env.uuid_to_hash32 key.replica_uuid
      + view_type_value key.view_type)
    % 2 ^ 32
    % size
