-- ===== src/Sohash/Init.antt =====
-- `sohash_init_hashtable` of mvfs_sohash_table.c.
pub mod Ready
use mvfs.Prelude.{
  ℕ, ◌+◌, Bool, true, false, not, ◌&&◌, ◌||◌, [], ◌∷◌, Option, none, some, ltb, if◌then◌else◌,
  replicate,
}
use mvfs.Sohash.Types.{Run, ok, ◌>>=◌, Table, Host, HashState, active}
use mvfs.Sohash.Hazard.{blank_hp}
use mvfs.Sohash.Buckets.{set_bucket, sentinel_node}

-- `sohash_init_args_t`: `none` is `SOHASH_SET_SEG_DEFAULT`; the flags say which callbacks are set.
pub record InitArgs : Type 0 where
  pub num_segments : Option ℕ
  pub segment_sz : Option ℕ
  pub keys_unique : Bool
  pub has_data_free : Bool
  pub has_compute_key : Bool
  pub has_verify : Bool

-- What the two locals of `sohash_init_hashtable` hold after the tests: `none` is the early return.
-- A value that is given and large enough is tested, and is not copied.
unfoldable pub sized : Option ℕ → ℕ → ℕ → Option ℕ
sized none default least = some default
sized (some n) default least = if ltb n least then none else some 0

abbrev default_seg_count : ℕ
default_seg_count = 511

abbrev default_seg_sz : ℕ
default_seg_sz = 511

abbrev min_seg_count : ℕ
min_seg_count = 1

abbrev min_seg_sz : ℕ
min_seg_sz = 251

-- The descriptor after `BZERO` and the allocation of the segment array.
abbrev pub bare : ℕ → ℕ → ℕ → Table
bare allocs segments size = record {
  hashtable = replicate segments none;
  chain = [];
  hp_list = [];
  hash_state = HashState.flush;
  num_segments = segments;
  segment_sz = size;
  keys_unique = false;
  hazard_ptrs_total = 0;
  current_size = 0;
  regularkey_count = 0;
  sentinelkey_count = 0;
  allocs = allocs;
  freed = [];
  deleted = [];
}

-- From the two sizes on: the requests are the descriptor, the array, the sentinel of bucket 0, its
-- segment and the first hazard reference.
unfoldable pub build : Host → InitArgs → ℕ → ℕ → Run (Option Table)
build env args segments size =
    let t = bare 3 segments size in
    if not (env.grant 0 && env.grant 1 && env.grant 2)
    then ok none
    else (set_bucket env (record t { chain = sentinel_node 2 0 ∷ [] }) 0 2 true >>= λ r. elim r.1 [
      | some e ↦ ok none
      | none ↦
          if env.grant (r.0).allocs
          then ok (
              some (record (r.0) {
                hp_list = record blank_hp { in_use = false } ∷ [];
                hazard_ptrs_total = 3;
                keys_unique = args.keys_unique;
                current_size = 2;
                regularkey_count = 0;
                hash_state = active;
                allocs = (r.0).allocs + 1;
              }))
          else ok none
    ])

-- `sohash_init_hashtable`; `none` is a null descriptor.
unfoldable pub init_hashtable : Host → InitArgs → Run (Option Table)
unfolding sized
init_hashtable env args =
    if not args.has_data_free
      || not args.has_compute_key
      || (not args.keys_unique && not args.has_verify)
    then ok none
    else elim (sized args.num_segments default_seg_count min_seg_count) [
      | none ↦ ok none
      | some segments ↦ elim (sized args.segment_sz default_seg_sz min_seg_sz) [
        | none ↦ ok none
        | some size ↦ build env args segments size
      ]
    ]
