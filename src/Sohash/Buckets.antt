-- ===== src/Sohash/Buckets.antt =====
-- The buckets of the split-ordered hash (mvfs_sohash_table.c): `sohash_get_bucket`,
-- `sohash_set_bucket`, `sohash_alloc_node`, `sohash_initialize_bucket`.
pub mod Slots
use mvfs.Prelude.{
  ℕ, zero, suc, ◌+◌, ◌/◌, ◌%◌, ◌^◌, Bool, true, false, not, map, Option, none, some, ◌==◌,
  if◌then◌else◌, get_elem?, set, replicate,
}
use mvfs.Sohash.Bits.{sentinelkey, unsetmsb}
use mvfs.Sohash.Types.{
  Run, ok, stop, panic, wild, fuel_out, ◌>>=◌, Errno, Entry, sentinel, Segment, Table, Host,
  is_active,
}
use mvfs.Sohash.Hazard.{free_node}
use mvfs.Sohash.Chain.{list_insert}

-- The entry of the segment array for a hash index. The index is not checked against the array: it
-- is `wild` outside, and where the division by the segment size traps.
unfoldable pub segment_at : Table → ℕ → Run (Option Segment)
segment_at t h =
    if t.segment_sz == 0
    then stop wild
    else elim (get_elem? t.hashtable (h / t.segment_sz)) [ none ↦ stop wild | some s ↦ ok s ]

-- `sohash_get_bucket`: the address in the bucket's slot, if it is initialized.
unfoldable pub get_bucket : Table → ℕ → Run (Option ℕ)
unfolding segment_at
get_bucket t h = do
  s ← segment_at t h
  elim s [
    | none ↦ ok none
    | some seg ↦ elim (get_elem? seg (h % t.segment_sz)) [ none ↦ stop wild | some slot ↦ ok slot ]
  ]

-- The compare-and-swap of a slot that is not yet initialized.
abbrev pub fill : Option ℕ → ℕ → Option ℕ
fill none a = some a
fill (some b) a = some b

abbrev pub place_entry : ℕ → ℕ → ℕ → Entry → Entry
place_entry a seg bucket e =
    if e.addr == a then record e { segment_index = seg; bucket_index = bucket } else e

-- `sohash_set_bucket` once the segment is there.
unfoldable pub fill_bucket : Table → Segment → ℕ → ℕ → Bool → Run (Table × Option Errno)
fill_bucket t seg h a inserted =
    let si = h / t.segment_sz in
    let bi = h % t.segment_sz in
    elim (get_elem? seg bi) [
      | none ↦ stop wild
      | some slot ↦
          let t' = record t { hashtable = set t.hashtable si (some (set seg bi (fill slot a))) } in
          ok (
            (if inserted
                then record t' {
                  chain = map (place_entry a si bi) t.chain;
                  sentinelkey_count = (t.sentinelkey_count + 1) % 2 ^ 32;
                }
                else t'),
            none,
          )
    ]

-- `sohash_set_bucket`: a missing segment is allocated, all its buckets uninitialized.
unfoldable pub set_bucket : Host → Table → ℕ → ℕ → Bool → Run (Table × Option Errno)
unfolding segment_at fill_bucket
set_bucket env t h a inserted = do
  s ← segment_at t h
  let t' = record t { allocs = t.allocs + 1 }
  elim s [
    | some seg ↦ fill_bucket t seg h a inserted
    | none ↦
        if env.grant t.allocs
        then fill_bucket t' (replicate t.segment_sz none) h a inserted
        else ok (t', some Errno.enomem)
  ]

-- A new node; its address is the number of the request, and requests have different numbers.
unfoldable pub alloc_node : Host → Table → Table × Option ℕ
alloc_node env t =
    (record t { allocs = t.allocs + 1 }, (if env.grant t.allocs then some t.allocs else none))

abbrev pub sentinel_node : ℕ → ℕ → Entry
sentinel_node a h = record {
  addr = a;
  content = none;
  reverse_so_key = sentinelkey h;
  so_key = h;
  hashindex = h;
  segment_index = 0;
  bucket_index = 0;
  entry_type = sentinel;
}

-- `sohash_initialize_bucket` from the insertion of the sentinel on; the parent's slot holds `p`.
unfoldable pub add_sentinel : Host → Table → ℕ → ℕ → ℕ → Run (Table × Option ℕ)
add_sentinel env t h p i =
    let (t₁, node) = alloc_node env t in
    elim node [
      | none ↦ ok (t₁, none)
      | some a ↦ do
        (t₂, existing) ← list_insert t₁ p (sentinel_node a h) (λ _. true) i
        elim existing [
          | none ↦ do
            (t₃, error) ← set_bucket env t₂ h a true
            ok (t₃, elim error [ none ↦ some a | some _ ↦ none ])
          | some e ↦ do
            (t₃, error) ← set_bucket env (free_node t₂ (sentinel_node a h)) h e.addr false
            ok (t₃, elim error [ none ↦ some e.addr | some _ ↦ none ])
        ]
    ]

-- `sohash_initialize_bucket`, with fuel for the chain of parents; `none` is a failure.
unfoldable pub initialize_bucket : ℕ → Host → Table → ℕ → ℕ → Run (Table × Option ℕ)
unfolding get_bucket add_sentinel
initialize_bucket zero env t h i = stop fuel_out
initialize_bucket (suc fuel) env t h i =
    let parent = λ (p : ℕ). initialize_bucket fuel env t p i in
    if not (is_active t.hash_state)
    then ok (t, none)
    else (get_bucket t h >>= λ slot. elim slot [
      | some a ↦ ok (t, some a)
      | none ↦ if h == 0 then stop panic else elim (unsetmsb h) [
        | none ↦ stop fuel_out
        | some p ↦ get_bucket t p >>= λ above. elim above [
          | some a ↦ add_sentinel env t h a i
          | none ↦ parent p >>= λ r. elim r.1 [
            | none ↦ ok (r.0, none)
            | some a ↦ add_sentinel env r.0 h a i
          ]
        ]
      ]
    ])
