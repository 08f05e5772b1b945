-- ===== src/Rdc.antt =====
-- The readdir cache of an mnode (mvfs_rdc.c): `mvfs_rddir_cache_flush`, `mvfs_rddir_cache_destroy`,
-- `mvfs_rddir_cache_get`, `mvfs_rddir_cache_enter_mnlocked`. The mnode is locked throughout. Offsets and sizes are numbers; a block is the address of its memory.
pub mod Blocks
pub mod Lookup
pub mod Tests
use mvfs.Prelude.{
  ◌++◌, ℕ, suc, ◌+◌, ◌*◌, Bool, false, not, ◌&&◌, List, [], ◌∷◌, Option, none, some, ltb, leb, ◌==◌,
  if◌then◌else◌, get_elem?, set, replicate,
}

-- `struct mvfs_rce`.
pub record Rce : Type 0 where
  pub valid : Bool
  pub eof : Bool
  pub offset : ℕ
  pub endoffset : ℕ
  pub size : ℕ
  pub bsize : ℕ
  pub block : Option ℕ

-- The field `rddir_cache` of an mnode, whose `nentries` is the length of the list, and the blocks that have
-- been given to `KMEM_FREE`, each with its size.
pub record Mnode : Type 0 where
  pub rddir_cache : Option (List Rce)
  pub freed : List (ℕ × ℕ)

-- The block that a valid slot holds.
unfoldable pub held : Rce → List (ℕ × ℕ)
held ep = if ep.valid then elim ep.block [ none ↦ [] | some b ↦ (b, ep.bsize) ∷ [] ] else []

abbrev pub emptied : Rce → Rce
emptied ep = if ep.valid then record ep { valid = false; block = none } else ep

-- `mvfs_rddir_cache_empty`.
unfoldable pub cache_empty : List Rce → List (ℕ × ℕ) → List Rce × List (ℕ × ℕ)
unfolding held
cache_empty [] freed = ([], freed)
cache_empty (ep ∷ es) freed =
    let rest = cache_empty es (held ep ++ freed) in (emptied ep ∷ rest.0, rest.1)

-- `mvfs_rddir_cache_flush`.
unfoldable pub cache_flush : Mnode → Mnode
unfolding cache_empty
cache_flush m = elim m.rddir_cache [
  | none ↦ m
  | some es ↦ let r = cache_empty es m.freed in record { rddir_cache = some r.0; freed = r.1 }
]

-- `mvfs_rddir_cache_destroy`; the memory of the slots themselves goes too.
unfoldable cache_destroy : Mnode → Mnode
unfolding cache_empty
cache_destroy m = elim m.rddir_cache [
  | none ↦ m
  | some es ↦ record { rddir_cache = none; freed = (cache_empty es m.freed).1 }
]

-- The loop of `mvfs_rddir_cache_get`: the first slot that is valid, at the offset, and small enough.
unfoldable pub usable : List Rce → ℕ → ℕ → Option Rce
usable [] offset resid = none
usable (ep ∷ es) offset resid =
    let later = usable es offset resid in
    if ep.valid && offset == ep.offset && leb ep.size resid then some ep else later

-- What a hit gives: the error of the copy, the offset after it, and the end-of-file flag.
pub record Got : Type 0 where
  pub error : ℕ
  pub offset : ℕ
  pub eof : Bool

-- `mvfs_rddir_cache_get`; the copy to the user gives its error and whether the buffer is full.
unfoldable pub cache_get : Bool → (Option ℕ → ℕ → ℕ → ℕ × Bool) → Mnode → ℕ → ℕ → Option Got
unfolding usable
cache_get enabled move m offset resid = if not enabled then none else elim m.rddir_cache [
  | none ↦ none
  | some es ↦ elim (usable es offset resid) [
    | none ↦ none
    | some ep ↦
        let copied = move ep.block ep.size ep.offset in
        if ep.size == 0
        then some (record { error = 0; offset = offset; eof = ep.eof })
        else some (record {
          error = copied.0;
          offset = (if copied.1 then offset else ep.endoffset);
          eof = ep.eof;
        })
  ]
]

-- The slot for an entry that is not at offset 0: the first from slot 1 on that is not valid, else the
-- last.
unfoldable pub free_slot : List Rce → ℕ
free_slot [] = 0
free_slot (ep ∷ []) = 0
free_slot (ep ∷ next ∷ es) =
    let further = suc (free_slot (next ∷ es)) in if next.valid then further else 1

abbrev pub slot_for : List Rce → Rce → ℕ
slot_for es entry = if entry.offset == 0 then 0 else free_slot es

-- The write of the entry to its slot; what the slot held is freed. `none` is a write outside the array.
unfoldable pub put : List Rce → List (ℕ × ℕ) → Rce → Option Mnode
unfolding held free_slot
put es freed entry = elim (get_elem? es (slot_for es entry)) [
  | none ↦ none
  | some ep ↦
      some
        (record { rddir_cache = some (set es (slot_for es entry) entry); freed = held ep ++ freed })
]

abbrev pub unused : Rce
unused = record {
  valid = false;
  eof = false;
  offset = 0;
  endoffset = 0;
  size = 0;
  bsize = 0;
  block = none;
}

-- `mvfs_rddir_cache_enter_mnlocked`; `memory` says whether the cache can be allocated. Only `valid` and
-- `block` of a new slot are set there.
unfoldable pub cache_enter : Bool → Bool → ℕ → Mnode → Rce → Option Mnode
unfolding put
cache_enter enabled memory blocks m entry = if not enabled then some m else elim m.rddir_cache [
  | some es ↦ put es m.freed entry
  | none ↦ if memory then put (replicate blocks unused) m.freed entry else some m
]
