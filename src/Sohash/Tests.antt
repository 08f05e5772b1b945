-- ===== src/Sohash/Tests.antt =====
-- Concrete runs of the split-ordered hash, and its theorems at concrete inputs.
use mathlib.Core.Option.{some-injective}
use mathlib.Core.List.{Perm}
use mvfs.Prelude.{
  ℕ, zero, suc, ◌≡◌, ◌<◌, ◌⊎◌, ◌+◌, ◌^◌, ◌%◌, refl, Bool, true, false, [], ◌∷◌, none, some, inl,
  arith, length,
}
use mvfs.Sohash.Bits.{reverse_loop, set_msb, reverse_bit, sentinelkey, regularkey}
use mvfs.Sohash.Bits.Order.{sentinelkey-lt-regularkey, bucket_region}
use mvfs.Sohash.Arrays.{sort_arr, search_arr}
use mvfs.Sohash.Arrays.Sorting.{IsAscending, sort_arr-sorts}
use mvfs.Sohash.Arrays.Searching.{contains, search_arr-contains}
use mvfs.Sohash.Types.{ok, Entry, Table, Host, HashState, HazardRef, regular}
use mvfs.Sohash.Hazard.{hazard_keys, hprec_scan, blank_hp, at_hp}
use mvfs.Sohash.Hazard.Reclaim.{hprec_scan-reclaims, kept_of, freed_of}
use mvfs.Sohash.Chain.{list_find}
use mvfs.Sohash.Chain.Walk.{IsCut, is_match, list_find-IsCut}
use mvfs.Sohash.Chain.Heads.{HasHead}
use mvfs.Sohash.Chain.Insert.{Insertion, list_insert-cases}
use mvfs.Sohash.Buckets.{sentinel_node, initialize_bucket}
use mvfs.Sohash.Buckets.Slots.{slot}
use mvfs.Sohash.Operations.{regular_node, insert_entry}
use mvfs.Sohash.Init.{InitArgs, init_hashtable}
use mvfs.Sohash.Init.Ready.{Initialized, init_hashtable-Initialized}
use mvfs.Sohash.Insert.{Entered}
use mvfs.Sohash.Insert.Complete.{insert_entry-Entered}
use mvfs.Sohash.Find.{Found, find_entry-Found}
use mvfs.Sohash.Invariant.{IsReady, IsValid}
use mvfs.Sohash.Invariant.Install.{Outcome}
use mvfs.Sohash.Invariant.Initialize.{initialize_bucket-Outcome}

abbrev host : Host
host = record { grant = λ _. true; on_delete = false; asserts = false }

abbrev any : Entry → Bool
any _ = true

-- Four buckets in one segment, of which the first is set, and an entry with key 3.
abbrev small_table : Table
small_table = record {
  hashtable = some (some 0 ∷ none ∷ none ∷ none ∷ []) ∷ [];
  chain = sentinel_node 0 0 ∷ regular_node 1 3 1 (some 30) ∷ [];
  hp_list = [];
  hash_state = HashState.active;
  num_segments = 1;
  segment_sz = 4;
  keys_unique = true;
  hazard_ptrs_total = 0;
  current_size = 2;
  regularkey_count = 1;
  sentinelkey_count = 1;
  allocs = 2;
  freed = [];
  deleted = [];
}

small_table-heads :
    (h a : ℕ) → h < 4 → slot small_table h ≡ some a → HasHead small_table.chain a (sentinelkey h)
unfolding slot
small_table-heads zero a lt e = inl (some-injective _ _ e, refl)
small_table-heads (suc zero) a lt e = cc
small_table-heads (suc (suc zero)) a lt e = cc
small_table-heads (suc (suc (suc zero))) a lt e = cc
small_table-heads (suc (suc (suc (suc h)))) a lt e = absurd (omega (arith, lt))

small_table-IsValid : IsValid small_table
unfolding slot sentinelkey regularkey reverse_bit reverse_loop set_msb
small_table-IsValid = record {
  shape = record { sz_pos = omega arith; fits = (refl, tt) };
  small = omega arith;
  sorted = ((omega arith, tt), (tt, tt));
  distinct = ((omega arith, tt), (tt, tt));
  fresh = (omega arith, (omega arith, tt));
  heads = small_table-heads;
  root = (0, refl);
}

small_table-IsReady : IsReady small_table
small_table-IsReady = record {
  valid = small_table-IsValid;
  active = refl;
  bits = 1;
  word = omega arith;
  size = refl;
  room = omega arith;
}

find_entry-Found_example : Found host small_table 3 any
find_entry-Found_example = find_entry-Found host small_table 3 any small_table-IsReady refl

sentinelkey-lt-regularkey_example :
    (sentinelkey (21 % 2 ^ 3) < regularkey 21) × (regularkey 21 < sentinelkey (21 % 2 ^ 3) + 2 ^ 29)
sentinelkey-lt-regularkey_example = sentinelkey-lt-regularkey 3 29 21 refl (omega arith)

bucket_region_example : (sentinelkey 6 < sentinelkey (21 % 2 ^ 3)) ⊎ (regularkey 21 < sentinelkey 6)
bucket_region_example = bucket_region 3 29 21 refl (omega arith) 6 (omega arith) (omega arith)

sort_arr-sorts_example :
    IsAscending (sort_arr (3 ∷ 1 ∷ 2 ∷ []) 3) × Perm (sort_arr (3 ∷ 1 ∷ 2 ∷ []) 3) (3 ∷ 1 ∷ 2 ∷ [])
sort_arr-sorts_example = sort_arr-sorts (3 ∷ 1 ∷ 2 ∷ [])

search_arr-contains_example :
    search_arr 4 (1 ∷ 3 ∷ 4 ∷ []) 3 0 3 ≡ some (contains (1 ∷ 3 ∷ 4 ∷ []) 3)
search_arr-contains_example =
    search_arr-contains (1 ∷ 3 ∷ 4 ∷ []) 3
      ((omega arith, (omega arith, tt)), ((omega arith, tt), (tt, tt)))

-- One reference points to an entry that another has retired, with a second one.
abbrev pointing : HazardRef
pointing = record blank_hp { hp1 = some (regular_node 1 3 1 (some 30)) }

abbrev retiring : HazardRef
retiring = record blank_hp {
  rlist = regular_node 1 3 1 (some 30) ∷ regular_node 2 5 1 (some 50) ∷ [];
  rcount = 2;
}

abbrev scanned_table : Table
scanned_table = record small_table { hp_list = pointing ∷ retiring ∷ []; hazard_ptrs_total = 6 }

hprec_scan-reclaims_example :
    hprec_scan host scanned_table 1
    ≡ ok (record scanned_table {
      hp_list =
          at_hp
            (λ h'. record h' {
              rlist = kept_of scanned_table.hp_list retiring.rlist [];
              rcount = length (kept_of scanned_table.hp_list retiring.rlist []);
            })
            scanned_table.hp_list
            1;
      freed = freed_of scanned_table.hp_list retiring.rlist [];
      allocs = 3;
    })
unfolding regularkey reverse_bit reverse_loop set_msb hazard_keys
hprec_scan-reclaims_example =
    hprec_scan-reclaims host scanned_table 1 retiring refl refl (omega arith)
      (omega arith, (omega arith, tt)) (omega arith)

list_find-IsCut_example :
    IsCut
      (is_match true any regular (regularkey 3))
      (regularkey 3)
      small_table.chain
      (list_find true any regular (regularkey 3) small_table.chain)
list_find-IsCut_example =
    list_find-IsCut true any regular (regularkey 3) small_table.chain small_table-IsValid.sorted

list_insert-cases_example : Insertion small_table 0 (sentinel_node 2 1) any 0
unfolding sentinelkey reverse_bit reverse_loop slot
list_insert-cases_example =
    list_insert-cases small_table 0 0 (sentinel_node 2 1) any 0 small_table-IsValid.sorted
      (small_table-heads 0 0 (omega arith) refl) (omega arith)

initialize_bucket-Outcome_example :
    Outcome host small_table 3 (initialize_bucket 33 host small_table 3 0)
initialize_bucket-Outcome_example =
    initialize_bucket-Outcome 33 32 host small_table 3 0 (omega arith) (omega arith)
      small_table-IsValid (omega arith)

abbrev default_args : InitArgs
default_args = record {
  num_segments = none;
  segment_sz = none;
  keys_unique = true;
  has_data_free = true;
  has_compute_key = true;
  has_verify = false;
}

init_hashtable-Initialized_example :
    Initialized host default_args (init_hashtable host default_args)
init_hashtable-Initialized_example =
    init_hashtable-Initialized host default_args refl refl refl refl refl

insert_entry-Entered_example :
    Entered host small_table 5 (some 50) (insert_entry host small_table 5 (some 50) any)
insert_entry-Entered_example =
    insert_entry-Entered host small_table 5 (some 50) any small_table-IsReady refl
