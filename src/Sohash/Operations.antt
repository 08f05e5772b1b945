-- ===== src/Sohash/Operations.antt =====
-- The routines of the split-ordered hash that its users call (mvfs_sohash_table.c):
-- `sohash_insert_entry`, `sohash_find_entry`, `sohash_delete_entry`.
use mvfs.Prelude.{
  ℕ, ◌+◌, ◌-◌, ◌*◌, ◌/◌, ◌%◌, ◌^◌, Bool, not, List, [], ◌∷◌, Option, none, some, ltb, ◌==◌,
  if◌then◌else◌,
}
use mvfs.Sohash.Bits.{regularkey}
use mvfs.Sohash.Types.{
  Run, ok, stop, panic, wild, ◌>>=◌, Errno, enomem, ebusy, efault, eexist, Entry, NodeType, regular,
  Table, Host, is_active,
}
use mvfs.Sohash.Hazard.{free_node, hp_get, hp_release}
use mvfs.Sohash.Chain.{find_node, list_insert, list_delete}
use mvfs.Sohash.Buckets.{get_bucket, alloc_node, initialize_bucket}

-- Parents of parents: a 32-bit index has at most 32 bits to clear.
abbrev pub parent_fuel : ℕ
parent_fuel = 33

-- The bucket of a hash index, initialized where it was not.
unfoldable pub bucket_of : Host → Table → ℕ → ℕ → Run (Table × Option ℕ)
bucket_of env t h i = get_bucket t h >>= λ slot. elim slot [
  | some a ↦ ok (t, some a)
  | none ↦ initialize_bucket parent_fuel env t h i
]

abbrev pub regular_node : ℕ → ℕ → ℕ → Option ℕ → Entry
regular_node a key h content = record {
  addr = a;
  content = content;
  reverse_so_key = regularkey key;
  so_key = key;
  hashindex = h;
  segment_index = 0;
  bucket_index = 0;
  entry_type = regular;
}

-- The count of a new key, and the doubling of the size over the load of 1.
unfoldable pub grow : Table → Table
grow t =
    let count = (t.regularkey_count + 1) % 2 ^ 32 in
    record t {
      regularkey_count = count;
      current_size =
          (if ltb 1 (count / t.current_size) then t.current_size * 2 % 2 ^ 32 else t.current_size);
    }

-- The segment and bucket index of the bucket's head.
abbrev pub indices_of : ℕ → List Entry → ℕ × ℕ
indices_of a [] = (0, 0)
indices_of a (e ∷ es) = if e.addr == a then (e.segment_index, e.bucket_index) else indices_of a es

-- What an insertion reports: the error, and the entry that `*node` points to.
pub record Inserted : Type 0 where
  pub error : Option Errno
  pub node : Option Entry

abbrev pub failed : Errno → Inserted
failed e = record { error = some e; node = none }

-- `sohash_insert_entry` with the reference at `i` and a new node at `a`.
unfoldable pub insert_node :
    Host → Table → ℕ → ℕ → Option ℕ → (Entry → Bool) → ℕ → Run (Table × Inserted)
insert_node env t a key content matches i =
    let h = key % t.current_size in
    bucket_of env t h i >>= λ b. elim b.1 [
      | none ↦ ok (hp_release (free_node b.0 (regular_node a key h content)) i, failed efault)
      | some head ↦
          let at = indices_of head (b.0).chain in
          let node = record (regular_node a key h content) {
            segment_index = at.0;
            bucket_index = at.1;
          } in
          list_insert b.0 head node matches i >>= λ r. elim r.1 [
            | some old ↦
                if env.asserts
                then stop panic
                else ok (
                  hp_release (free_node r.0 node) i,
                  record { error = some eexist; node = some old },
                )
            | none ↦ ok (hp_release (grow r.0) i, record { error = none; node = some node })
          ]
    ]

abbrev freeing : Table → Option ℕ → Table
freeing t content = record t { freed = elim content [ none ↦ t.freed | some d ↦ d ∷ t.freed ] }

-- `sohash_insert_entry` after `sohash_alloc_node`, with the reference at `i`.
unfoldable pub insert_allocated :
    Host → Table × Option ℕ → ℕ → Option ℕ → (Entry → Bool) → ℕ → Run (Table × Inserted)
insert_allocated env (t, none) key content matches i =
    ok (hp_release (freeing t content) i, failed enomem)
insert_allocated env (t, some a) key content matches i =
    if t.current_size == 0 then stop wild else insert_node env t a key content matches i

-- `sohash_insert_entry` after `sohash_hp_get`.
unfoldable pub insert_reserved :
    Host → Table × Option ℕ → ℕ → Option ℕ → (Entry → Bool) → Run (Table × Inserted)
insert_reserved env (t, none) key content matches = ok (freeing t content, failed enomem)
insert_reserved env (t, some i) key content matches =
    insert_allocated env (alloc_node env t) key content matches i

-- `sohash_insert_entry`.
unfoldable pub insert_entry : Host → Table → ℕ → Option ℕ → (Entry → Bool) → Run (Table × Inserted)
insert_entry env t key content matches =
    if not (is_active t.hash_state)
    then ok (freeing t content, failed ebusy)
    else insert_reserved env (hp_get env t) key content matches

-- `sohash_find_entry`.
unfoldable pub find_entry : Host → Table → ℕ → (Entry → Bool) → Run (Table × Option Entry)
find_entry env t key matches =
    if not (is_active t.hash_state)
    then ok (t, none)
    else let (t₁, hp) = hp_get env t in
      elim hp [
        | none ↦ ok (t₁, none)
        | some i ↦
            if t₁.current_size == 0
            then stop wild
            else (bucket_of env t₁ (key % t₁.current_size) i >>= λ b. elim b.1 [
              | none ↦ ok (hp_release b.0 i, none)
              | some head ↦ find_node b.0 head matches regular (regularkey key) i >>= λ r.
                  ok (hp_release r.0 i, r.1)
            ])
      ]

-- `sohash_delete_entry_subr`.
unfoldable delete_entry_subr :
    Host → Table → ℕ → ℕ → NodeType → (Entry → Bool) → ℕ → Run (Table × Option Errno)
delete_entry_subr env t key a kind matches i = list_delete env t a matches kind key i >>= λ r.
    elim r.1 [
      | some e ↦ ok (r.0, some e)
      | none ↦
          if (r.0).regularkey_count == 0
          then stop panic
          else ok (record (r.0) { regularkey_count = (r.0).regularkey_count - 1 }, none)
    ]

-- `sohash_delete_entry`. Where the bucket cannot be initialized, the reference is not released.
unfoldable delete_entry : Host → Table → ℕ → (Entry → Bool) → Run (Table × Option Errno)
delete_entry env t key matches =
    if not (is_active t.hash_state)
    then ok (t, some ebusy)
    else let (t₁, hp) = hp_get env t in
      elim hp [
        | none ↦ ok (t₁, some enomem)
        | some i ↦
            if t₁.current_size == 0
            then stop wild
            else (bucket_of env t₁ (key % t₁.current_size) i >>= λ b. elim b.1 [
              | none ↦ ok (b.0, some efault)
              | some head ↦
                  delete_entry_subr env b.0 (regularkey key) head regular matches i >>= λ r.
                  ok (hp_release r.0 i, r.1)
            ])
      ]
