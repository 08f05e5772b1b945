-- ===== src/Sohash/Chain.antt =====
-- The linked list of the split-ordered hash (mvfs_sohash_table.c): `sohash_list_find`,
-- `sohash_list_insert`, `sohash_list_delete`. A walk starts at a bucket's sentinel.
pub mod Walk
pub mod Heads
pub mod Sorted
pub mod Insert
pub mod Look
use mvfs.Prelude.{
  ℕ, Bool, true, false, ◌||◌, List, [], ◌∷◌, ◌++◌, Option, none, some, ltb, ◌==◌, if◌then◌else◌,
}
use mvfs.Sohash.Types.{
  Run, ok, stop, wild, detached, ◌>>=◌, Errno, enoent, Entry, NodeType, HazardRef, Table, Host,
  is_sentinel,
}
use mvfs.Sohash.Hazard.{at_hp, clear_ref, retire_node}

-- Where a walk ends: the entries passed, the entries from `cur` on, and whether `cur` is the match.
pub record Spot : Type 0 where
  pub passed : List Entry
  pub rest : List Entry
  pub found : Bool

abbrev pub pass : Entry → Spot → Spot
pass e s = record s { passed = e ∷ s.passed }

-- The loop of `sohash_list_find`. Regular entries of a table whose keys may repeat are asked about.
unfoldable pub list_find : Bool → (Entry → Bool) → NodeType → ℕ → List Entry → Spot
list_find unique matches kind key [] = record { passed = []; rest = []; found = false }
list_find unique matches kind key (e ∷ es) =
    let further = pass e (list_find unique matches kind key es) in
    if e.reverse_so_key == key
    then if is_sentinel kind || unique || matches e
      then record { passed = []; rest = e ∷ es; found = true }
      else further
    else if ltb key e.reverse_so_key
    then record { passed = []; rest = e ∷ es; found = false }
    else further

-- The list cut before the entry at an address: a bucket's slot points to it.
unfoldable pub cut_at : ℕ → List Entry → Option (List Entry × List Entry)
cut_at a [] = none
cut_at a (e ∷ es) =
    let later : Option (List Entry × List Entry) = elim (cut_at a es) [
      | none ↦ none
      | some (before, from) ↦ some (e ∷ before, from)
    ] in
    if e.addr == a then some ([], e ∷ es) else later

abbrev pub first : List Entry → Option Entry
first [] = none
first (e ∷ es) = some e

abbrev pub second : List Entry → Option Entry
second [] = none
second (e ∷ es) = first es

abbrev pub last : List Entry → Option Entry → Option Entry
last [] d = d
last (e ∷ es) d = last es (some e)

-- The hazard pointers when `sohash_list_find` returns: next, current, and the entry before.
abbrev pub point_at : Spot → HazardRef → HazardRef
point_at s h = record h { hp0 = second s.rest; hp1 = first s.rest; hp2 = last s.passed h.hp2 }

-- A walk of the list from the sentinel at address `a`: the list before it, and where the walk ends.
unfoldable pub walk : Table → ℕ → Bool → (Entry → Bool) → NodeType → ℕ → Run (List Entry × Spot)
unfolding cut_at list_find
walk t a unique matches kind key = elim (cut_at a t.chain) [
  | none ↦ stop wild
  | some (before, from) ↦ ok (before, list_find unique matches kind key from)
]

-- `sohash_list_find` through the reference at `i`.
unfoldable pub find_node :
    Table → ℕ → (Entry → Bool) → NodeType → ℕ → ℕ → Run (Table × Option Entry)
unfolding walk at_hp
find_node t a matches kind key i = do
  (before, spot) ← walk t a t.keys_unique matches kind key
  ok (
    record t { hp_list = at_hp (point_at spot) t.hp_list i },
    (if spot.found then first spot.rest else none),
  )

-- `sohash_list_insert` once the walk has ended. A write to the bucket's own slot would cut the
-- list, as nothing has been passed.
unfoldable pub link : Table → List Entry → Spot → Entry → ℕ → Run (Table × Option Entry)
unfolding at_hp
link t before spot node i =
    let t' = record t { hp_list = at_hp clear_ref t.hp_list i } in
    if spot.found then ok (t', first spot.rest) else elim spot.passed [
      | [] ↦ stop detached
      | e ∷ es ↦ ok (record t' { chain = before ++ (spot.passed ++ (node ∷ spot.rest)) }, none)
    ]

-- `sohash_list_insert`: `some` entry is `EEXIST`.
unfoldable pub list_insert : Table → ℕ → Entry → (Entry → Bool) → ℕ → Run (Table × Option Entry)
unfolding walk link
list_insert t a node matches i =
    walk t a t.keys_unique matches node.entry_type node.reverse_so_key >>= λ w.
    link t w.0 w.1 node i

-- `sohash_list_delete` once the walk has ended: the entry is unlinked and retired, with the hazard
-- pointers still set.
unfoldable pub unlink : Host → Table → List Entry → Spot → ℕ → Run (Table × Option Errno)
unfolding at_hp retire_node
unlink env t before spot i =
    let t' = record t { hp_list = at_hp (point_at spot) t.hp_list i } in
    let gone : Table × Option Errno =
      (record t { hp_list = at_hp clear_ref t'.hp_list i }, some enoent) in
    if spot.found
    then elim spot.rest [
      | [] ↦ ok gone
      | e ∷ es ↦ elim spot.passed [
        | [] ↦ stop detached
        | p ∷ ps ↦
            retire_node env (record t' { chain = before ++ (spot.passed ++ es) }) i e >>= λ r.
            ok (record r { hp_list = at_hp clear_ref r.hp_list i }, none)
      ]
    ]
    else ok gone

-- `sohash_list_delete`.
unfoldable pub list_delete :
    Host → Table → ℕ → (Entry → Bool) → NodeType → ℕ → ℕ → Run (Table × Option Errno)
unfolding walk unlink
list_delete env t a matches kind key i =
    walk t a t.keys_unique matches kind key >>= λ w. unlink env t w.0 w.1 i
