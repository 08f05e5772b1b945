-- ===== src/Acl/Access.antt =====
-- The access checks (mvfs_chkaccess_acl, mvfs_chkaccess_modebits and mvfs_chkaccess of mvfs_acl.c).
pub mod Rights
pub mod Modebits
pub mod Decision
use Prim.Native.Nat.{bit_and, bit_or}
use mvfs.Prelude.{
  ℕ, Bool, true, false, Option, none, some, ◌==◌, ◌&&◌, ◌||◌, not, if◌then◌else◌, ◌/◌,
}
use mvfs.Acl.Permission.{Cred, groupmember, check_permission_creds, tbs_st_ok}
use mvfs.Acl.Types.{Env, Table, Mnode, SidAcl, eacces}
use mvfs.Acl.Hash.{eaclhash_validate, ◌>>=◌}

abbrev pub vread : ℕ
vread = 256

abbrev pub vwrite : ℕ
vwrite = 128

abbrev pub vexec : ℕ
vexec = 64

abbrev s_ixusr : ℕ
s_ixusr = 64

abbrev s_ixgrp : ℕ
s_ixgrp = 8

abbrev pub root_uid : ℕ
root_uid = 0

abbrev pub element_rights_read_info : ℕ
element_rights_read_info = 0x4000

abbrev pub element_rights_write_dir : ℕ
element_rights_write_dir = 0x40

abbrev pub element_rights_lookup_dir : ℕ
element_rights_lookup_dir = 0x80

-- Whether a mode has a flag.
abbrev pub flag : ℕ → ℕ → Bool
flag mode bit = not (bit_and mode bit == 0)

unfoldable pub add_if : Bool → ℕ → ℕ → ℕ
add_if test perms right = if test then bit_or perms right else perms

unfoldable pub dir_perms : ℕ → ℕ
dir_perms mode =
    add_if (flag mode vexec)
      (add_if (flag mode vwrite) (add_if (flag mode vread) 0 element_rights_read_info)
        element_rights_write_dir)
      element_rights_lookup_dir

unfoldable pub file_perms : ℕ → ℕ
file_perms mode =
    add_if (flag mode vexec) (add_if (flag mode vread) 0 element_rights_read_info)
      element_rights_read_info

-- The mode bits that the execution of a file wants besides its list.
unfoldable pub may_execute : ℕ → ℕ → Cred → Bool
may_execute owner_uid vmode cred =
    (flag vmode s_ixusr && (cred.fsuid == owner_uid)) || flag vmode s_ixgrp

unfoldable pub answer_of : ℕ × Bool → ℕ
answer_of (status, granted) =
    if status == tbs_st_ok then (if granted then 0 else eacces) else eacces

-- What the list of an object says: for a directory, and for a file.
unfoldable pub check_eacl : Bool → SidAcl → ℕ → ℕ → ℕ → ℕ → Cred → ℕ
check_eacl is_dir acl mode owner_uid owner_gid vmode cred =
    if is_dir
    then answer_of
        (check_permission_creds acl.ents (dir_perms mode) cred (some owner_uid) (some owner_gid))
    else if flag mode vwrite
    then eacces
    else if flag mode vexec && not (may_execute owner_uid vmode cred)
    then eacces
    else answer_of
        (check_permission_creds acl.ents (file_perms mode) cred (some owner_uid) (some owner_gid))

-- The list of the entry that a handle stands for, if there is one.
unfoldable pub eaclh_at : Table → Option ℕ → Option (Option SidAcl)
eaclh_at t none = some none
eaclh_at t (some a) = t.heap a >>= λ ep. some ep.eaclh

unfoldable pub check_handle : Bool → Option SidAcl → ℕ → ℕ → ℕ → ℕ → Cred → ℕ
check_handle is_dir none mode owner_uid owner_gid vmode cred = eacces
check_handle is_dir (some acl) mode owner_uid owner_gid vmode cred =
    check_eacl is_dir acl mode owner_uid owner_gid vmode cred

-- The table, the error, and whether the mode bits are to be checked.
unfoldable pub chkaccess_acl :
    Env → Table → Mnode → ℕ → ℕ → ℕ → ℕ → Cred → Option (Table × ℕ × Bool)
chkaccess_acl env t mnp mode owner_uid owner_gid vmode cred =
    if cred.fsuid == root_uid
    then some (t, 0, false)
    else if not mnp.is_vob
    then some (t, 0, true)
    else if mnp.rolemap_oid == 0
    then some (t, 0, true)
    else eaclhash_validate env mnp t mnp.mn_aclh >>= λ u. eaclh_at u mnp.mn_aclh >>= λ acl.
        some (u, check_handle mnp.is_dir acl mode owner_uid owner_gid vmode cred, false)

-- The class of mode bits that counts, as a divisor.
unfoldable pub mode_class : ℕ → ℕ → ℕ → Cred → ℕ
mode_class mode vuid vgid cred =
    if cred.fsuid == vuid
    then mode
    else if cred.fsgid == vgid
    then mode / 8
    else if groupmember vgid cred
    then mode / 8
    else mode / 8 / 8

unfoldable pub chkaccess_modebits : ℕ → ℕ → ℕ → ℕ → Cred → ℕ
chkaccess_modebits mode vuid vgid vmode cred =
    let wanted : ℕ = mode_class mode vuid vgid cred in
    if bit_and vmode wanted == wanted then 0 else eacces

unfoldable pub chkaccess : Env → Table → Mnode → ℕ → ℕ → ℕ → ℕ → Cred → Option (Table × ℕ)
chkaccess env t mnp mode vuid vgid vmode cred =
    chkaccess_acl env t mnp mode vuid vgid vmode cred >>= λ r.
    some (r.0, if r.2 then chkaccess_modebits mode vuid vgid vmode cred else r.1)
