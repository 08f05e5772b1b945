-- ===== src/Acl/Sweep.antt =====
-- The walks over the whole table of effective lists (mvfs_acl_inval_oid and mvfs_acl_free of
-- mvfs_acl.c).
pub mod Inval
pub mod Empty
use mvfs.Prelude.{
  ℕ, zero, suc, Bool, true, false, List, [], ◌∷◌, Option, none, some, ◌==◌, ◌&&◌, ◌||◌,
  if◌then◌else◌, ◌+◌,
}
use mvfs.Acl.Types.{Table, Entry, epoch}
use mvfs.Acl.Hash.{◌>>=◌, store, remove_entry, free_entry}

-- Of the types of objects two have lists.
pub data OidType : Type 0 where
  rolemap : OidType
  policy : OidType
  other : OidType

unfoldable pub is_hit : OidType → ℕ → Entry → Bool
is_hit OidType.rolemap oid ep = ep.key.rolemap_oid == oid
is_hit OidType.policy oid ep = ep.policy_oid == oid
is_hit OidType.other oid ep = false

-- The entry with its time set back, if it is hit.
unfoldable pub set_back : OidType → ℕ → Entry → Entry
set_back oid_type oid ep = if is_hit oid_type oid ep then record ep { eacl_lut = epoch } else ep

unfoldable pub inval_chain : OidType → ℕ → List ℕ → Table → Option Table
inval_chain oid_type oid [] t = some t
inval_chain oid_type oid (a ∷ rest) t =
    t.heap a >>= λ ep. inval_chain oid_type oid rest (store t a (set_back oid_type oid ep))

-- `n` slots are left, from `hash_val` on.
unfoldable pub inval_slots : OidType → ℕ → ℕ → ℕ → Table → Option Table
inval_slots oid_type oid zero hash_val t = some t
inval_slots oid_type oid (suc n) hash_val t =
    inval_chain oid_type oid (t.chain hash_val) t >>= inval_slots oid_type oid n (hash_val + 1)

unfoldable pub acl_inval_oid : Table → OidType → ℕ → Option Table
acl_inval_oid t oid_type oid = inval_slots oid_type oid t.eaclhash_size 0 t

unfoldable pub free_chain : ℕ → List ℕ → Table → Option Table
free_chain hash_val [] t = some t
free_chain hash_val (a ∷ rest) t =
    t.heap a >>= λ ep. free_chain hash_val rest (free_entry (remove_entry t a hash_val) a ep)

unfoldable pub free_slots : ℕ → ℕ → Table → Option Table
free_slots zero hash_val t = some t
free_slots (suc n) hash_val t =
    free_chain hash_val (t.chain hash_val) t >>= free_slots n (hash_val + 1)

-- The entries that are left, before the memory of the slots goes back.
unfoldable pub acl_free : Table → Option Table
acl_free t = free_slots t.eaclhash_size 0 t
