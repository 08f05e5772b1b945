-- ===== src/Sohash/Types.antt =====
-- The state of the split-ordered hash (mvfs_sohash_table.h), and results of its routines.
-- The linked list is a list of entries; an address tells entries apart. Calls run to their end
-- with no other thread between, so that a compare-and-swap on a value just read succeeds.
use mvfs.Prelude.{ℕ, Bool, true, false, List, Option}

-- What ends a run: `MDKI_PANIC`; an access outside an array; a write of the list that would go to a
-- bucket's slot and cut the list; the fuel of the model.
pub data Stop : Type 0 where
  panic wild detached fuel_out : Stop

pub data Run {ℓ} (A : Type ℓ) : Type ℓ where
  ok : A → Run A
  stop : Stop → Run A

infixl 5 ◌>>=◌
abbrev pub ◌>>=◌ {ℓ κ} : {A : Type ℓ} {B : Type κ} → Run A → (A → Run B) → Run B
ok a >>= f = f a
stop s >>= f = stop s

pub data Errno : Type 0 where
  enoent enomem ebusy efault eexist einval : Errno

pub data NodeType : Type 0 where
  sentinel regular : NodeType

-- `sohash_entry_t`; the next pointer is the place in the list, and `none` is the null `data`.
pub record Entry : Type 0 where
  pub addr : ℕ
  pub content : Option ℕ
  pub reverse_so_key : ℕ
  pub so_key : ℕ
  pub hashindex : ℕ
  pub segment_index : ℕ
  pub bucket_index : ℕ
  pub entry_type : NodeType

-- `sohash_hazard_ref_t` with its record: three hazard pointers, retired entries and their number.
pub record HazardRef : Type 0 where
  pub hp0 : Option Entry
  pub hp1 : Option Entry
  pub hp2 : Option Entry
  pub rlist : List Entry
  pub rcount : ℕ
  pub in_use : Bool

pub data HashState : Type 0 where
  active flush : HashState

-- A slot holds the address of its bucket's sentinel; `none` is `SOHASH_UNINITIALIZED`.
abbrev pub Segment : Type 0
Segment = List (Option ℕ)

-- `sohash_table_t`, and what the run has done outside: memory requests made, data given to
-- `fn_data_free`, entries given to `fn_on_delete`.
pub record Table : Type 0 where
  pub hashtable : List (Option Segment)
  pub chain : List Entry
  pub hp_list : List HazardRef
  pub hash_state : HashState
  pub num_segments : ℕ
  pub segment_sz : ℕ
  pub keys_unique : Bool
  pub hazard_ptrs_total : ℕ
  pub current_size : ℕ
  pub regularkey_count : ℕ
  pub sentinelkey_count : ℕ
  pub allocs : ℕ
  pub freed : List ℕ
  pub deleted : List Entry

-- What the table relies on: `grant n` says whether the request number `n` for memory succeeds, and
-- `on_delete` whether a delete callback is set. `asserts` says whether the build panics at a failed
-- ASSERT (MVFS_INHOUSE_NONPRODUCTION_ASSERTS with mvfs_panic_assert set); of the assertions of
-- the routines only the one against EEXIST in sohash_insert_entry is modelled.
pub record Host : Type 0 where
  pub grant : ℕ → Bool
  pub on_delete : Bool
  pub asserts : Bool

abbrev pub is_sentinel : NodeType → Bool
is_sentinel sentinel = true
is_sentinel regular = false

abbrev pub is_active : HashState → Bool
is_active active = true
is_active flush = false
