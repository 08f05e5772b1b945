-- ===== src/Acl/Hash.antt =====
-- The table of effective lists (mvfs_acl.c): chains of entries by the hash of their keys, and a count
-- of the mnodes that hold each entry. A chain is the list of its entries' addresses, from the slot's
-- next link on. `none` is an access to memory that holds no entry.
pub mod Invariant
pub mod Removal
pub mod Lookup
pub mod Holds
pub mod Release
pub mod Mnodes
pub mod Start
pub mod Shared
use mvfs.Prelude.{
  ℕ, zero, suc, Bool, true, false, List, [], ◌∷◌, Option, none, some, ◌==◌, ◌&&◌, ◌||◌,
  if◌then◌else◌, ◌+◌, ◌-◌, ◌%◌, ◌^◌,
}
use mvfs.Acl.Types.{
  Env, World, Table, Key, Entry, Mnode, Cursor, Reply, Timeval, SidAcl, ViewType, epoch, key_eq,
  eaclhash, enomem,
}
use mvfs.Acl.Fetch.{free_eaclh, update_eaclh, validate_eaclh}

abbrev pub put {ℓ} : {A : Type ℓ} → (ℕ → A) → ℕ → A → ℕ → A
put f a v b = if b == a then v else f b

infixl 5 ◌>>=◌
abbrev pub ◌>>=◌ {ℓ κ} : {A : Type ℓ} {B : Type κ} → Option A → (A → Option B) → Option B
none >>= f = none
some a >>= f = f a

unfoldable pub store : Table → ℕ → Entry → Table
store t a e = record t { heap = put t.heap a (some e) }

-- The empty chains of a new table.
unfoldable pub empty_table : Env → World → Table
empty_table env w = record {
  eaclhash_size = env.eaclhash_size_default;
  chain = λ i. [];
  entry_cnt = λ i. 0;
  heap = λ a. none;
  world = w;
}

-- Whether the slots and the locks get their memory is given; without them there is no table.
unfoldable pub acl_init : Env → World → Bool → Bool → ℕ × Option Table
acl_init env w slots locks =
    if slots && locks then (0, some (empty_table env w)) else (enomem, none)

-- The address of the first entry of a chain with the key.
unfoldable pub search_chain : (ℕ → Option Entry) → Key → List ℕ → Option (Option ℕ)
search_chain heap key [] = some none
search_chain heap key (a ∷ rest) =
    let later = search_chain heap key rest in
    heap a >>= λ ep. if key_eq ep.key key then some (some a) else later

unfoldable pub hold : Table → ℕ → Option Table
hold t a = t.heap a >>= λ ep. some (store t a (record ep { refcnt = (ep.refcnt + 1) % 2 ^ 32 }))

-- The entry is held if there is one.
unfoldable pub find_entry : Table → Key → ℕ → Option (Table × Option ℕ)
find_entry t key hash_val = search_chain t.heap key (t.chain hash_val) >>= λ found. elim found [
  | none ↦ some (t, none)
  | some a ↦ hold t a >>= λ u. some (u, some a)
]

unfoldable pub add_entry : Table → ℕ → ℕ → Table
add_entry t a hash_val = record t {
  chain = put t.chain hash_val (a ∷ t.chain hash_val);
  entry_cnt = put t.entry_cnt hash_val ((t.entry_cnt hash_val + 1) % 2 ^ 32);
}

-- The links around an address are joined.
unfoldable pub unlink : ℕ → List ℕ → List ℕ
unlink a [] = []
unlink a (b ∷ rest) = if b == a then rest else b ∷ unlink a rest

unfoldable pub remove_entry : Table → ℕ → ℕ → Table
remove_entry t a hash_val = record t {
  chain = put t.chain hash_val (unlink a (t.chain hash_val));
  entry_cnt = put t.entry_cnt hash_val ((t.entry_cnt hash_val + 2 ^ 32 - 1) % 2 ^ 32);
}

unfoldable pub free_entry : Table → ℕ → Entry → Table
free_entry t a ep = record t { heap = put t.heap a none; world = free_eaclh ep.eaclh t.world }

-- mvfs_eaclhash_validate_eaclh on the entry in the table.
unfoldable pub validate_at : Env → Mnode → Table → ℕ → Option Table
validate_at env mnp t a = t.heap a >>= λ ep.
    let r = validate_eaclh env mnp t.world ep in some (record (store t a r.0) { world = r.1 })

-- mvfs_eaclhash_validate, which a NULL entry passes.
unfoldable pub eaclhash_validate : Env → Mnode → Table → Option ℕ → Option Table
eaclhash_validate env mnp t none = some t
eaclhash_validate env mnp t (some a) = validate_at env mnp t a

abbrev pub new_entry : Key → Entry
new_entry key = record { key = key; refcnt = 1; eacl_lut = epoch; policy_oid = 0; eaclh = none }

unfoldable pub requested : Table → Table
requested t = record t { world = record t.world { allocs = t.world.allocs + 1 } }

-- A new entry, fetched and linked.
unfoldable pub insert_new : Env → Mnode → Table → Key → ℕ → ℕ → Table
insert_new env mnp t key hash_val a =
    let r = update_eaclh env mnp t.world (new_entry key) in
    add_entry (record (store t a r.0) { world = r.1 }) a hash_val

unfoldable pub get_new : Env → Mnode → Table → Key → ℕ → Table × Option ℕ
get_new env mnp t key hash_val = elim (env.kmem_alloc t.world.allocs t.heap) [
  | none ↦ (requested t, none)
  | some a ↦ (insert_new env mnp (requested t) key hash_val a, some a)
]

unfoldable pub eaclhash_get : Env → Mnode → Table → Key → Option (Table × Option ℕ)
eaclhash_get env mnp t key = find_entry t key (eaclhash env t.eaclhash_size key) >>= λ r. elim r.1 [
  | none ↦ some (get_new env mnp r.0 key (eaclhash env t.eaclhash_size key))
  | some a ↦ validate_at env mnp r.0 a >>= λ u. some (u, some a)
]

-- The count is one less; at zero the entry goes.
unfoldable pub drop_hold : Env → Table → ℕ → Entry → Table
drop_hold env t a ep =
    let left = (ep.refcnt + 2 ^ 32 - 1) % 2 ^ 32 in
    let less = record ep { refcnt = left } in
    if left == 0
    then free_entry (remove_entry (store t a less) a (eaclhash env t.eaclhash_size ep.key)) a less
    else store t a less

unfoldable pub eaclhash_release : Env → Table → Option ℕ → Option Table
eaclhash_release env t none = some t
eaclhash_release env t (some a) = t.heap a >>= λ ep. some (drop_hold env t a ep)

abbrev pub key_of : Mnode → Key
key_of mnp = record {
  rolemap_oid = mnp.rolemap_oid;
  replica_uuid = mnp.vobuuid;
  view_type = if mnp.windows_view then ViewType.windows else ViewType.unix;
}

abbrev pub same_handle : Option ℕ → Option ℕ → Bool
same_handle none none = true
same_handle none (some b) = false
same_handle (some a) none = false
same_handle (some a) (some b) = a == b

-- The handle of the mnode gives way to the one just got, unless it is the same.
unfoldable pub swap_handle : Env → Mnode → Table × Option ℕ → Option (Table × Mnode)
swap_handle env mnp (t, ep) =
    if same_handle mnp.mn_aclh ep
    then eaclhash_release env t ep >>= (λ u. some (u, mnp))
    else eaclhash_release env t mnp.mn_aclh >>= λ u. some (u, record mnp { mn_aclh = ep })

unfoldable pub acl_uncache : Env → Table → Mnode → Option (Table × Mnode)
acl_uncache env t mnp =
    eaclhash_release env t mnp.mn_aclh >>= λ u. some (u, record mnp { mn_aclh = none })

unfoldable pub acl_cache : Env → Table → Mnode → Option (Table × Mnode)
acl_cache env t mnp =
    if mnp.rolemap_oid == 0
    then acl_uncache env t mnp
    else eaclhash_get env mnp t (key_of mnp) >>= swap_handle env mnp
