-- ===== src/Acl/Tests.antt =====
-- The theorems on access control at concrete inputs.
use mathlib.Core.Option.{some-injective}
use mvfs.Prelude.{
  ◌%◌, ◌∙◌, ◌^◌, sym, set, ap, ◌<◌, ℕ, true, false, List, [], ◌∷◌, Option, none, some, ◌==◌, ◌≡◌,
  ◌≢◌, arith, refl, ◌⊎◌, ◌↔◌, any, testbit, if◌then◌else◌, ◌+◌, ◌*◌, ◌≤◌,
}
use mvfs.Acl.Permission.{IdKind, CookedEnt, Cred, check_permission_creds, tbs_st_ok}
use mvfs.Acl.Permission.Grants.{concerns, allows, check_permission_creds-granted}
use mvfs.Acl.Types.{
  Env, World, Table, Mnode, Entry, Key, Reply, SidAcl, ViewType, epoch, cursor_null, eaclhash,
}
use mvfs.Acl.Fetch.{update_eaclh, is_expired, free_eaclh}
use mvfs.Acl.Fetch.Steps.{IsGood, with_reply}
use mvfs.Acl.Fetch.Transfer.{Transfer}
use mvfs.Acl.Fetch.Update.{
  IsDelivered, update_eaclh-ends, update_eaclh-fetches, update_eaclh-IsDelivered,
}
use mvfs.Acl.Hash.{
  put, store, add_entry, empty_table, eaclhash_get, eaclhash_release, acl_cache, find_entry,
}
use mvfs.Acl.Hash.Invariant.{IsValid, add_entry-IsValid}
use mvfs.Acl.Hash.Holds.{IsAllocator, Got, one_less, eaclhash_get-Got}
use mvfs.Acl.Hash.Release.{Origin, eaclhash_release-IsValid}
use mvfs.Acl.Hash.Mnodes.{holds, IsTied, acl_cache-IsValid}
use mvfs.Acl.Hash.Shared.{sharers, find_entry-sharers}
use mvfs.Acl.Hash.Start.{empty_table-IsValid}
use mvfs.Acl.Access.{check_eacl, chkaccess, chkaccess_modebits}
use mvfs.Acl.Access.Rights.{IsPermitted, check_eacl-IsPermitted}
use mvfs.Acl.Access.Modebits.{class_shift, chkaccess_modebits-class}
use mvfs.Acl.Access.Decision.{Grant, chkaccess-Grant}
use mvfs.Acl.Sweep.{OidType, is_hit, acl_inval_oid}
use mvfs.Acl.Sweep.Inval.{acl_inval_oid-expires}

-- A user in two groups.
abbrev user : Cred
user = record { fsuid = 500; fsgid = 100; groups = 100 ∷ 20 ∷ [] }

-- The user may look up, one of the groups may read, everyone may write directories.
abbrev ents : List CookedEnt
ents =
    record { kind = IdKind.id_user; principal_id = 500; perm_set = 0x80 }
    ∷ record { kind = IdKind.id_group; principal_id = 20; perm_set = 0x4000 }
    ∷ record { kind = IdKind.id_all; principal_id = 0; perm_set = 0x40 }
    ∷ []

abbrev acl : SidAcl
acl = record { address = 900; ents = ents }

check_permission_creds-granted_example :
    ((check_permission_creds ents 0x40c0 user none none).0 ≡ tbs_st_ok)
    × (((check_permission_creds ents 0x40c0 user none none).1 ≡ true) ↔ (
        (any (concerns user none none) ents ≡ true)
        × ((i : ℕ) → testbit 0x40c0 i ≡ true → any (allows user none none i) ents ≡ true)))
check_permission_creds-granted_example = check_permission_creds-granted ents 0x40c0 user none none

check_eacl-IsPermitted_example :
    (check_eacl false acl 256 500 100 292 user ≡ 0) ↔ IsPermitted false acl 256 500 100 292 user
check_eacl-IsPermitted_example = check_eacl-IsPermitted false acl 256 500 100 292 user

chkaccess_modebits-class_example :
    (chkaccess_modebits 256 500 100 292 user ≡ 0)
    ↔ ((i : ℕ) → testbit 256 (class_shift 500 100 user + i) ≡ true → testbit 292 i ≡ true)
chkaccess_modebits-class_example = chkaccess_modebits-class 256 500 100 292 user

-- The view server sends the list in two blocks; the memory has one place.
abbrev first_reply : Reply
first_reply = record {
  error = 0;
  status = 0;
  cursor = record { eacl_mtime = epoch; next_offset = 50 };
  eaclh = some acl;
  eacl_mtime = record { tv_sec = 40; tv_usec = 0 };
  policy_oid = 3;
}

abbrev last_reply : Reply
last_reply = record first_reply { cursor = cursor_null }

abbrev env : Env
env = record {
  call = λ n key cursor held. if cursor.next_offset == 0 then first_reply else last_reply;
  ctime = λ n. 1000 + n;
  kmem_alloc = λ n heap. elim (heap 7) [ none ↦ some 7 | some e ↦ none ];
  uuid_to_hash32 = λ u. u;
  eacl_blocks_default = 100;
  eacl_err_timeout = 240;
  eaclhash_size_default = 1024;
  stack_error = 77;
  stack_status = 78;
}

abbrev world : World
world = record { calls = 0; allocs = 0; freed = [] }

abbrev mnode : Mnode
mnode = record {
  has_view = true;
  windows_view = false;
  is_vob = true;
  is_dir = true;
  vobuuid = 11;
  rolemap_oid = 5;
  eacl_mtime = record { tv_sec = 30; tv_usec = 0 };
  mn_aclh = none;
}

abbrev key : Key
key = record { rolemap_oid = 5; replica_uuid = 11; view_type = ViewType.unix }

abbrev entry : Entry
entry = record { key = key; refcnt = 1; eacl_lut = epoch; policy_oid = 0; eaclh = none }

env-IsAllocator : IsAllocator env
env-IsAllocator = record { vacant = λ n heap a q. one_place (heap 7) heap refl a q }
  where
    one_place :
        (o : Option Entry) (heap : ℕ → Option Entry)
        → heap 7 ≡ o
        → (a : ℕ) → elim o [ none ↦ some 7 | some e ↦ none ] ≡ some a
        → heap a ≡ none
    one_place none heap e a q = ap heap (sym (some-injective _ _ q)) ∙ e
    one_place (some x) heap e a q = absurd (cc)

first-IsGood : IsGood first_reply
first-IsGood = record { error = refl; status = refl }

last-IsGood : IsGood last_reply
last-IsGood = record { error = refl; status = refl }

two_blocks : Transfer env key last_reply 0 cursor_null none 2
two_blocks =
    Transfer.block first_reply refl first-IsGood (λ e. omega (arith, e))
      (Transfer.whole refl last-IsGood refl)

update_eaclh-fetches_example :
    update_eaclh env mnode world entry
    ≡ (with_reply last_reply entry, record (free_eaclh none world) { calls = 0 + 2 })
update_eaclh-fetches_example =
    update_eaclh-fetches env mnode world entry last_reply 2 refl two_blocks (omega arith)

update_eaclh-IsDelivered_example :
    IsDelivered env mnode entry (update_eaclh env mnode world entry).0
update_eaclh-IsDelivered_example = update_eaclh-IsDelivered env mnode world entry acl (
    ap (λ r. r.0.eaclh)
      (update_eaclh-fetches env mnode world entry last_reply 2 refl two_blocks (omega arith)))

update_eaclh-ends_example :
    ((update_eaclh env mnode world entry).0.key ≡ key)
    × ((update_eaclh env mnode world entry).0.refcnt ≡ 1)
    × ((update_eaclh env mnode world entry).1.calls ≤ 0 + 2 * 100)
update_eaclh-ends_example = update_eaclh-ends env mnode world entry

-- A table with one entry, which one mnode holds.
abbrev full : Entry
full = record entry { eaclh = some acl; eacl_lut = record { tv_sec = 40; tv_usec = 0 } }

abbrev blank_table : Table
blank_table = empty_table env world

abbrev one_table : Table
one_table =
    add_entry (record (store blank_table 7 full) { world = world }) 7
      (eaclhash env blank_table.eaclhash_size key)

abbrev holder : Mnode
holder = record mnode { mn_aclh = some 7 }

abbrev mnodes : List Mnode
mnodes = mnode ∷ holder ∷ []

one_table-IsValid : IsValid env one_table (holds mnodes)
unfolding empty_table
one_table-IsValid =
    add_entry-IsValid env blank_table (λ a. 0) (holds mnodes) 7 full world
      (empty_table-IsValid env world) refl (λ b e q. absurd (cc)) refl refl (λ b n. ground arith)

few : (a : ℕ) → holds mnodes a + 1 < 2 ^ 32
few a = ground arith

eaclhash_get-Got_example :
    Got env one_table (holds mnodes) key (eaclhash_get env mnode one_table key)
eaclhash_get-Got_example =
    eaclhash_get-Got env mnode one_table (holds mnodes) key env-IsAllocator one_table-IsValid
      (λ a. few a)

eaclhash_release-IsValid_example :
    (u : Table) × (e : Entry) × (eaclhash_release env one_table (some 7) ≡ some u)
    × IsValid env u (one_less (holds mnodes) 7)
    × (one_table.heap 7 ≡ some e)
    × (holds mnodes 7 ≡ 1 → (u.heap 7 ≡ none) × (u.world ≡ free_eaclh e.eaclh one_table.world))
    × (holds mnodes 7 ≢ 1 → u.world ≡ one_table.world)
    × Origin one_table u
eaclhash_release-IsValid_example =
    eaclhash_release-IsValid env one_table (holds mnodes) 7 one_table-IsValid
      (λ z. omega (arith, z)) (omega arith)

acl_cache-IsValid_example :
    (u : Table) × (o : Option ℕ) × (acl_cache env one_table mnode
      ≡ some (u, record mnode { mn_aclh = o }))
    × IsValid env u (holds (set mnodes 0 (record mnode { mn_aclh = o })))
    × IsTied u (record mnode { mn_aclh = o })
acl_cache-IsValid_example =
    acl_cache-IsValid env mnodes 0 mnode refl one_table env-IsAllocator one_table-IsValid
      (omega arith)

holder-IsTied : IsTied one_table holder
unfolding IsTied store add_entry
holder-IsTied = λ b q. (
  λ z. omega (arith, z),
  (full, ap (λ c. put blank_table.heap 7 (some full) c) (sym (some-injective _ _ q)), refl),
)

chkaccess-Grant_example :
    (u : Table) × (err : ℕ) × (chkaccess env one_table holder 320 500 100 0 user ≡ some (u, err))
    × IsValid env u (holds mnodes)
    × IsTied u holder
    × ((err ≡ 0) ↔ Grant u holder 320 500 100 0 user)
chkaccess-Grant_example =
    chkaccess-Grant env one_table holder 320 500 100 0 user (holds mnodes) one_table-IsValid
      holder-IsTied

acl_inval_oid-expires_example :
    (u : Table) × (acl_inval_oid one_table OidType.rolemap 5 ≡ some u)
    × IsValid env u (holds mnodes)
    × ((a : ℕ) (e : Entry)
        → one_table.heap a ≡ some e
        → u.heap a ≡ some (if is_hit OidType.rolemap 5 e then record e { eacl_lut = epoch } else e))
    × ((a : ℕ) (e : Entry) (m : Mnode) (w : World)
        → one_table.heap a ≡ some e
        → is_hit OidType.rolemap 5 e ≡ true
        → 0 < m.eacl_mtime.tv_sec
        → (f : Entry) × (u.heap a ≡ some f) × (is_expired env m w f ≡ true))
unfolding empty_table store add_entry
acl_inval_oid-expires_example =
    acl_inval_oid-expires env one_table (holds mnodes) OidType.rolemap 5 one_table-IsValid
      (omega arith)

mnode-IsTied : IsTied one_table mnode
unfolding IsTied
mnode-IsTied = λ b q. absurd (cc)

find_entry-sharers_example :
    ((sharers mnodes key ≡ 0)
      × ((a : ℕ) (e : Entry) → one_table.heap a ≡ some e → e.key ≢ key)
      × (find_entry one_table key (eaclhash env one_table.eaclhash_size key)
          ≡ some (one_table, none)))
    ⊎ ((a : ℕ) × (e : Entry) × (one_table.heap a ≡ some e)
        × (e.key ≡ key)
        × (e.refcnt ≡ sharers mnodes key)
        × (sharers mnodes key ≢ 0)
        × ((b : ℕ) (f : Entry) → one_table.heap b ≡ some f → f.key ≡ key → b ≡ a)
        × (find_entry one_table key (eaclhash env one_table.eaclhash_size key)
            ≡ some (store one_table a (record e { refcnt = (e.refcnt + 1) % 2 ^ 32 }), some a)))
find_entry-sharers_example =
    find_entry-sharers env one_table mnodes key one_table-IsValid
      (mnode-IsTied, (holder-IsTied, tt))
