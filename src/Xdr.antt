-- ===== src/Xdr.antt =====
-- The blocks in which an access list crosses the wire (xdr_tbs_acl_cooked_info_block of
-- tbs_acl_c_xdr_kernel.c, with an offset, XDR_DECODE). The stream is a list of numbers and entries,
-- whose own encodings are not looked into: an item is decoded as an entry only if it is one.
pub mod Middle
pub mod Blocks
pub mod Faults
pub mod Tests
use Prim.Native.Nat.{min}
use mvfs.Prelude.{
  ℕ, zero, suc, List, [], ◌∷◌, Option, none, some, ltb, ◌==◌, leb, if◌then◌else◌, ◌+◌, ◌-◌, ◌%◌,
  ◌^◌, get_elem?, set, replicate, length,
}
use mvfs.Acl.Permission.{CookedEnt, IdKind}

pub data Item : Type 0 where
  u_int : ℕ → Item
  cooked_ent : CookedEnt → Item

-- `refused` is the return of FALSE; `fault` is an access outside the array; `hangs` is a loop that does not
-- end.
pub data Coded {ℓ} (A : Type ℓ) : Type ℓ where
  ok : A → Coded A
  refused : Coded A
  fault : Coded A
  hangs : Coded A

pub record CookedInfo : Type 0 where
  pub n_ents : ℕ
  pub limit : ℕ
  pub cooked_ents : List CookedEnt

-- Zeroed memory.
abbrev pub blank : CookedEnt
blank = record { kind = IdKind.id_none; principal_id = 0; perm_set = 0 }

-- What is left of a failed entry at the index i: the entry's kind is written before the rest of an
-- item is found not to be an entry.
abbrev failed_at : ℕ → List CookedEnt → Coded (List CookedEnt × List Item)
failed_at i ents = if ltb i (length ents) then Coded.hangs else Coded.fault

-- The array and the rest of the stream. If the stream ends or goes wrong within the entries, the
-- entries before are freed in a loop `while (--i >= 0)` over an unsigned index, which does not end:
-- the routine that it calls returns at once for XDR_FREE.
unfoldable pub decode_ents : ℕ → ℕ → List Item → List CookedEnt → Coded (List CookedEnt × List Item)
decode_ents zero i stream ents = Coded.ok (ents, stream)
decode_ents (suc n) i (Item.cooked_ent e ∷ stream) ents =
    let rest = decode_ents n (i + 1) stream (set ents i e) in
    if ltb i (length ents) then rest else Coded.fault
decode_ents (suc n) i (Item.u_int k ∷ stream) ents = failed_at i ents
decode_ents (suc n) i [] ents = Coded.hangs

-- The space for a new list, or the check of the space that an earlier block has made.
unfoldable pub make_room : ℕ → ℕ → ℕ → CookedInfo → Coded CookedInfo
make_room offset n_ents total_ents info =
    if offset == 0
    then Coded.ok
        (record { n_ents = n_ents; limit = total_ents; cooked_ents = replicate total_ents blank })
    else if ltb info.limit ((info.n_ents + n_ents) % 2 ^ 32)
    then Coded.refused
    else Coded.ok (record info { n_ents = (info.n_ents + n_ents) % 2 ^ 32 })

unfoldable pub fill_room : ℕ → ℕ → List Item → CookedInfo → Coded (CookedInfo × List Item)
fill_room offset n_ents stream info = elim (decode_ents n_ents offset stream info.cooked_ents) [
  | ok (ents, rest) ↦ Coded.ok (record info { cooked_ents = ents }, rest)
  | refused ↦ Coded.refused
  | fault ↦ Coded.fault
  | hangs ↦ Coded.hangs
]

unfoldable pub decode_block : ℕ → List Item → CookedInfo → Coded (CookedInfo × List Item)
decode_block offset (Item.u_int n_ents ∷ Item.u_int total_ents ∷ stream) info =
    elim (make_room offset n_ents total_ents info) [
      | ok room ↦ fill_room offset n_ents stream room
      | refused ↦ Coded.refused
      | fault ↦ Coded.fault
      | hangs ↦ Coded.hangs
    ]
decode_block offset _ info = Coded.refused
