-- ===== src/Acl/Permission.antt =====
-- The check of a list against credentials (tbs_acl_kernel.c, mvfs_groupmember of mvfs_acl.c). A
-- permission set is the number of its mask.
pub mod Grants
use Prim.Native.Nat.{bit_and, bit_or}
use mvfs.Prelude.{ℕ, Bool, true, false, List, [], ◌∷◌, Option, none, some, ◌==◌, if◌then◌else◌}

-- The kinds of identities, TBS_ACL_ID_NONE and so on.
pub data IdKind : Type 0 where
  id_none : IdKind
  id_user : IdKind
  id_group : IdKind
  id_domain_all : IdKind
  id_all : IdKind
  id_owner_user : IdKind
  id_owner_group : IdKind
  id_role : IdKind

-- An entry of the list: its identity, with the user or the group in `principal_id`, and its mask.
pub record CookedEnt : Type 0 where
  pub kind : IdKind
  pub principal_id : ℕ
  pub perm_set : ℕ

-- The identities of a caller.
pub record Cred : Type 0 where
  pub fsuid : ℕ
  pub fsgid : ℕ
  pub groups : List ℕ

abbrev pub tbs_st_ok : ℕ
tbs_st_ok = 0

-- The walk over the group list of the credentials.
unfoldable pub groupmember_loop : ℕ → List ℕ → Bool
groupmember_loop vgid [] = false
groupmember_loop vgid (gp ∷ rest) = if vgid == gp then true else groupmember_loop vgid rest

unfoldable pub groupmember : ℕ → Cred → Bool
groupmember vgid cred = groupmember_loop vgid cred.groups

abbrev creds_is_user : Cred → ℕ → Bool
creds_is_user creds user = creds.fsuid == user

abbrev creds_has_group : Cred → ℕ → Bool
creds_has_group creds group = groupmember group creds

-- A test of an owner, who may be absent.
abbrev owner_test : (ℕ → Bool) → Option ℕ → Bool
owner_test test none = false
owner_test test (some id) = test id

-- Whether the switch of the loop reaches its end for an entry of the kind.
unfoldable pub applies : IdKind → ℕ → Cred → Option ℕ → Option ℕ → Bool
applies IdKind.id_none id creds owner_usid owner_gsid = false
applies IdKind.id_user id creds owner_usid owner_gsid = creds_is_user creds id
applies IdKind.id_group id creds owner_usid owner_gsid = creds_has_group creds id
applies IdKind.id_domain_all id creds owner_usid owner_gsid = false
applies IdKind.id_all id creds owner_usid owner_gsid = true
applies IdKind.id_owner_user id creds owner_usid owner_gsid =
    owner_test (creds_is_user creds) owner_usid
applies IdKind.id_owner_group id creds owner_usid owner_gsid =
    owner_test (creds_has_group creds) owner_gsid
applies IdKind.id_role id creds owner_usid owner_gsid = false

-- The answer, and the permissions gathered so far.
unfoldable pub add_and_check_perms : ℕ → ℕ → ℕ → Bool × ℕ
add_and_check_perms required current accumulated =
    let both : ℕ = bit_or accumulated current in (bit_and required both == required, both)

unfoldable pub check_loop : List CookedEnt → ℕ → Cred → Option ℕ → Option ℕ → ℕ → Bool
check_loop [] requested creds owner_usid owner_gsid allowed = false
check_loop (ent ∷ ents) requested creds owner_usid owner_gsid allowed =
    let step = add_and_check_perms requested ent.perm_set allowed in
    elim (applies ent.kind ent.principal_id creds owner_usid owner_gsid) [
      | false ↦ check_loop ents requested creds owner_usid owner_gsid allowed
      | true ↦
          let rest : Bool = check_loop ents requested creds owner_usid owner_gsid step.1 in
          if step.0 then true else rest
    ]

-- The status, which is always the same, and whether the permission is granted.
unfoldable pub check_permission_creds : List CookedEnt → ℕ → Cred → Option ℕ → Option ℕ → ℕ × Bool
check_permission_creds ents requested creds owner_usid owner_gsid =
    (tbs_st_ok, check_loop ents requested creds owner_usid owner_gsid 0)
