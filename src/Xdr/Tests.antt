-- ===== src/Xdr/Tests.antt =====
-- The theorems on blocks at concrete inputs.
use mvfs.Prelude.{ltb, if◌then◌else◌, List, [], ◌∷◌, map, replicate, length, ◌≡◌, inl, arith}
use mvfs.Acl.Permission.{CookedEnt, IdKind}
use mvfs.Xdr.{Item, Coded, CookedInfo, decode_block}
use mvfs.Xdr.Blocks.{whole, entries, receive, receive-whole}
use mvfs.Xdr.Faults.{decode_block-fault}

abbrev reader : CookedEnt
reader = record { kind = IdKind.id_user; principal_id = 500; perm_set = 0x4000 }

abbrev many : List CookedEnt
many = replicate 3 reader

abbrev few : List CookedEnt
few = reader ∷ []

abbrev nothing : CookedInfo
nothing = record { n_ents = 0; limit = 0; cooked_ents = [] }

receive-whole_example :
    receive (length (entries (many ∷ few ∷ []))) 0 (many ∷ few ∷ []) nothing
    ≡ Coded.ok (whole (entries (many ∷ few ∷ [])))
receive-whole_example = receive-whole many (few ∷ []) nothing (λ z. omega (arith, z)) (omega arith)

decode_block-fault_example :
    decode_block 0 (Item.u_int 2 ∷ Item.u_int 2 ∷ map Item.cooked_ent few) nothing
    ≡ (if ltb 2 (length few) then Coded.fault else Coded.hangs)
decode_block-fault_example = decode_block-fault 2 2 few nothing (inl (omega arith))
