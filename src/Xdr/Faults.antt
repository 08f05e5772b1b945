-- ===== src/Xdr/Faults.antt =====
-- What a decoded block does when its counts are wrong.
use mvfs.Prelude.{
  ℕ, zero, suc, List, [], ◌∷◌, map, ltb, ◌+◌, ◌<◌, ◌≤◌, ◌⊎◌, inl, inr, length, length-set, set,
  replicate, length-replicate, ◌≡◌, refl, arith, Bool-cases, ltb→lt, if◌then◌else◌,
}
use mvfs.Acl.Permission.{CookedEnt}
use mvfs.Xdr.{Item, Coded, CookedInfo, blank, decode_ents, decode_block, make_room, fill_room}

-- The stream has entries for more places than there are.
decode_ents-fault :
    (n i : ℕ) (xs ents : List CookedEnt)
    → i ≤ length ents
    → length ents < i + length xs
    → length ents < i + n
    → decode_ents n i (map Item.cooked_ent xs) ents ≡ Coded.fault
unfolding decode_ents
decode_ents-fault zero i xs ents le more h = absurd (omega arith)
decode_ents-fault (suc n) i [] ents le more h = absurd (omega arith)
decode_ents-fault (suc n) i (x ∷ xs) ents le more h = elim (Bool-cases (ltb i (length ents))) [
  | inl y ↦
      let lt = ltb→lt i (length ents) y in
      let l = length-set ents i x in
      let ih =
        decode_ents-fault n (i + 1) xs (set ents i x) (omega (arith, lt, l))
          (omega (arith, l, more)) (omega (arith, l, h)) in
      ground (arith, ih)
  | inr y ↦ ground arith
]

-- The stream ends within the array.
decode_ents-hangs :
    (n i : ℕ) (xs ents : List CookedEnt)
    → i + length xs ≤ length ents
    → length xs < n
    → decode_ents n i (map Item.cooked_ent xs) ents ≡ Coded.hangs
unfolding decode_ents
decode_ents-hangs zero i xs ents le h = absurd (omega arith)
decode_ents-hangs (suc n) i [] ents le h = refl
decode_ents-hangs (suc n) i (x ∷ xs) ents le h =
    let l = length-set ents i x in
    let ih = decode_ents-hangs n (i + 1) xs (set ents i x) (omega (arith, l, le)) (omega arith) in
    ground (arith, ih, le)

fill_room-as :
    (offset n : ℕ) (stream : List Item) (info : CookedInfo)
    → (decode_ents n offset stream info.cooked_ents ≡ Coded.fault
        → fill_room offset n stream info ≡ Coded.fault)
      × (decode_ents n offset stream info.cooked_ents ≡ Coded.hangs
          → fill_room offset n stream info ≡ Coded.hangs)
unfolding fill_room
fill_room-as offset n stream info = (λ e. ground arith, λ e. ground arith)

-- A first block whose count is above the number of its entries, or above the total for which it makes space, is not
-- refused: it makes the receiver access memory outside the array if it has more entries than the
-- total, and loop for ever if not.
pub decode_block-fault :
    (n total : ℕ) (xs : List CookedEnt) (c : CookedInfo)
    → (length xs < n) ⊎ (total < n)
    → decode_block 0 (Item.u_int n ∷ Item.u_int total ∷ map Item.cooked_ent xs) c
      ≡ (if ltb total (length xs) then Coded.fault else Coded.hangs)
unfolding decode_block make_room
decode_block-fault n total xs c h =
    let ents = replicate total blank in
    let room : CookedInfo = record { n_ents = n; limit = total; cooked_ents = ents } in
    let l = length-replicate total blank in
    let outcome = fill_room-as 0 n (map Item.cooked_ent xs) room in
    elim (Bool-cases (ltb total (length xs))) [
      | inl y ↦
          let lt = ltb→lt total (length xs) y in
          let many : total < n = elim h [ inl s ↦ omega (arith, s, lt) | inr s ↦ s ] in
          rw y (
            outcome.0 (
              decode_ents-fault n 0 xs ents (omega arith) (omega (arith, l, lt))
                (omega (arith, l, many))))
      | inr m ↦
          let le : length xs ≤ total = ground (arith, m) in
          let few : length xs < n = elim h [ inl s ↦ s | inr s ↦ omega (arith, s, le) ] in
          rw m (outcome.1 (decode_ents-hangs n 0 xs ents (omega (arith, l, le)) few))
    ]
