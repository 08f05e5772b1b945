-- ===== src/Xdr/Blocks.antt =====
-- A list that comes in blocks is put together again.
use mvfs.Xdr.Middle.{decode_ents-middle}
use mathlib.Core.List.{append_assoc}
use mvfs.Prelude.{
  ◌^◌, ◌<◌, ◌≤◌, ◌≢◌, ℕ, zero, suc, List, [], ◌∷◌, ◌++◌, map, ◌+◌, replicate, length, ◌≡◌, refl,
  sym, ap, ◌∙◌, arith, length-append,
}
use mvfs.Acl.Permission.{CookedEnt}
use mvfs.Xdr.{Item, Coded, CookedInfo, blank, decode_ents, decode_block, make_room, fill_room}

-- A list to send, and a list that has arrived up to some place.
abbrev pub whole : List CookedEnt → CookedInfo
whole ents = record { n_ents = length ents; limit = length ents; cooked_ents = ents }

abbrev partial : List CookedEnt → List CookedEnt → CookedInfo
partial pre suf = record {
  n_ents = length pre;
  limit = length pre + length suf;
  cooked_ents = pre ++ replicate (length suf) blank;
}

-- The client has room for the rest of the list.
abbrev HasRoom : List CookedEnt → List CookedEnt → CookedInfo → Type 0
HasRoom pre suf c =
    (n : ℕ)
    → n ≤ length suf
    → make_room (length pre) n (length pre + length suf) c
      ≡ Coded.ok (record (partial pre suf) { n_ents = length pre + n })

room_at_first : (suf : List CookedEnt) (c : CookedInfo) → HasRoom [] suf c
unfolding make_room
room_at_first suf c n le =
    let p : n ≡ 0 + n = omega arith in
    let q : 0 + length suf ≡ length suf = omega arith in
    λ i.
      Coded.ok
        (record { n_ents = p i; limit = 0 + length suf; cooked_ents = replicate (q i) blank })

room_later :
    (pre suf : List CookedEnt)
    → length pre ≢ 0
    → length pre + length suf < 2 ^ 32
    → HasRoom pre suf (partial pre suf)
unfolding make_room
room_later pre suf nz small n le = ground arith

abbrev items_of : List CookedEnt → List CookedEnt → List CookedEnt → List Item
items_of pre xs post =
    Item.u_int (length xs) ∷ Item.u_int (length (pre ++ (xs ++ post))) ∷ map Item.cooked_ent xs

decode_block-step :
    (offset n total : ℕ) (stream rest : List Item) (c room : CookedInfo) (ents : List CookedEnt)
    → make_room offset n total c ≡ Coded.ok room
    → decode_ents n offset stream room.cooked_ents ≡ Coded.ok (ents, rest)
    → decode_block offset (Item.u_int n ∷ Item.u_int total ∷ stream) c
      ≡ Coded.ok (record room { cooked_ents = ents }, rest)
unfolding decode_block fill_room
decode_block-step offset n total stream rest c room ents e q = ground arith

replicate_add : (m n : ℕ) → replicate (m + n) blank ≡ replicate m blank ++ replicate n blank
replicate_add zero n = ap (λ k. replicate k blank) (omega arith)
replicate_add (suc m) n =
    let e : suc m + n ≡ suc (m + n) = omega arith in
    ap (λ k. replicate k blank) e ∙ ap (λ l. blank ∷ l) (replicate_add m n)

append_nil : (l : List Item) → l ++ [] ≡ l
append_nil [] = refl
append_nil (x ∷ l) = ap (λ k. x ∷ k) (append_nil l)

decode_block-part :
    (pre xs post : List CookedEnt) (c : CookedInfo)
    → HasRoom pre (xs ++ post) c
    → decode_block (length pre) (items_of pre xs post) c ≡ Coded.ok (partial (pre ++ xs) post, [])
decode_block-part pre xs post c room =
    let total : length (pre ++ (xs ++ post)) ≡ length pre + length (xs ++ post) =
      length-append pre (xs ++ post) in
    let have =
      ap (λ k. make_room (length pre) (length xs) k c) total
      ∙ room (length xs) (omega (arith, length-append xs post)) in
    let blanks : replicate (length (xs ++ post)) blank
        ≡ replicate (length xs) blank ++ replicate (length post) blank =
      ap (λ k. replicate k blank) (length-append xs post)
      ∙ replicate_add (length xs) (length post) in
    let got = decode_ents-middle pre xs (replicate (length post) blank) [] (length pre) refl in
    let read : decode_ents (length xs) (length pre) (map Item.cooked_ent xs)
          (pre ++ replicate (length (xs ++ post)) blank)
        ≡ Coded.ok (pre ++ (xs ++ replicate (length post) blank), []) =
      (λ i.
        decode_ents (length xs) (length pre) (sym (append_nil (map Item.cooked_ent xs)) i)
          (pre ++ blanks i))
      ∙ got in
    let p : length pre + length xs ≡ length (pre ++ xs) = sym (length-append pre xs) in
    let q : length pre + length (xs ++ post) ≡ length (pre ++ xs) + length post =
      omega (arith, length-append xs post, p) in
    let r = sym (append_assoc pre xs (replicate (length post) blank)) in
    decode_block-step (length pre) (length xs) (length (pre ++ (xs ++ post)))
      (map Item.cooked_ent xs) [] c
      (record (partial pre (xs ++ post)) { n_ents = length pre + length xs })
      (pre ++ (xs ++ replicate (length post) blank)) have read
    ∙ (λ i. Coded.ok (record { n_ents = p i; limit = q i; cooked_ents = r i }, []))

partial-whole : (pre xs : List CookedEnt) → partial (pre ++ xs) [] ≡ whole (pre ++ (xs ++ []))
partial-whole pre xs =
    let e : (pre ++ xs) ++ [] ≡ pre ++ (xs ++ []) = append_assoc pre xs [] in
    let n : length (pre ++ xs) ≡ length (pre ++ (xs ++ [])) =
      omega (arith, length-append (pre ++ xs) [], ap length e) in
    let m : length (pre ++ xs) + 0 ≡ length (pre ++ (xs ++ [])) = omega (arith, n) in
    λ i. record { n_ents = n i; limit = m i; cooked_ents = e i }

-- The entries of several blocks.
abbrev pub entries : List (List CookedEnt) → List CookedEnt
entries [] = []
entries (xs ∷ blocks) = xs ++ entries blocks

abbrev pub block_of : ℕ → List CookedEnt → List Item
block_of total xs = Item.u_int (length xs) ∷ Item.u_int total ∷ map Item.cooked_ent xs

-- Blocks decoded one after the other, each where the one before has left off.
unfoldable pub receive : ℕ → ℕ → List (List CookedEnt) → CookedInfo → Coded CookedInfo
receive total offset [] c = Coded.ok c
receive total offset (xs ∷ blocks) c = elim (decode_block offset (block_of total xs) c) [
  | Coded.ok (d, rest) ↦ receive total (offset + length xs) blocks d
  | Coded.refused ↦ Coded.refused
  | Coded.fault ↦ Coded.fault
  | Coded.hangs ↦ Coded.hangs
]

receive-step :
    (total offset : ℕ) (xs : List CookedEnt) (blocks : List (List CookedEnt)) (c d : CookedInfo)
    → decode_block offset (block_of total xs) c ≡ Coded.ok (d, [])
    → receive total offset (xs ∷ blocks) c ≡ receive total (offset + length xs) blocks d
unfolding receive
receive-step total offset xs blocks c d e = rw (e, receive) refl

receive-end : (total offset : ℕ) (c : CookedInfo) → receive total offset [] c ≡ Coded.ok c
unfolding receive
receive-end total offset c = refl

receive_from :
    (pre xs : List CookedEnt) (blocks : List (List CookedEnt)) (c : CookedInfo)
    → length pre + length xs ≢ 0
    → length pre + length (xs ++ entries blocks) < 2 ^ 32
    → HasRoom pre (xs ++ entries blocks) c
    → receive (length (pre ++ (xs ++ entries blocks))) (length pre) (xs ∷ blocks) c
      ≡ Coded.ok (whole (pre ++ (xs ++ entries blocks)))
receive_from pre xs [] c nz small room =
    receive-step (length (pre ++ (xs ++ []))) (length pre) xs [] c (partial (pre ++ xs) [])
      (decode_block-part pre xs [] c room)
    ∙ (receive-end _ _ _ ∙ ap Coded.ok (partial-whole pre xs))
receive_from pre xs (ys ∷ blocks) c nz small room =
    let post = ys ++ entries blocks in
    let d = partial (pre ++ xs) post in
    let same : (pre ++ xs) ++ post ≡ pre ++ (xs ++ post) = append_assoc pre xs post in
    let at : length pre + length xs ≡ length (pre ++ xs) = sym (length-append pre xs) in
    let fits : length (pre ++ xs) + length post < 2 ^ 32 =
      omega (arith, small, at, length-append xs post) in
    let ih =
      receive_from (pre ++ xs) ys blocks d (λ z. nz (omega (arith, z, at))) fits
        (room_later (pre ++ xs) post (λ z. nz (omega (arith, z, at))) fits) in
    receive-step (length (pre ++ (xs ++ post))) (length pre) xs (ys ∷ blocks) c d
      (decode_block-part pre xs post c room)
    ∙ ((λ i. receive (length (sym same i)) (at i) (ys ∷ blocks) d)
        ∙ (ih ∙ ap (λ l. Coded.ok (whole l)) same))

-- A list of fewer than 2 ^ 32 entries that comes in blocks, however it is cut, is put together again,
-- whatever the receiver held before: if the first block has an entry and each says the total, then no
-- block is refused or goes outside the array, and the receiver has the entries in order.
pub receive-whole :
    (first : List CookedEnt) (blocks : List (List CookedEnt)) (c : CookedInfo)
    → length first ≢ 0
    → length (entries (first ∷ blocks)) < 2 ^ 32
    → receive (length (entries (first ∷ blocks))) 0 (first ∷ blocks) c
      ≡ Coded.ok (whole (entries (first ∷ blocks)))
receive-whole first blocks c nz small =
    receive_from [] first blocks c (λ z. nz (omega (arith, z))) (omega (arith, small))
      (room_at_first (first ++ entries blocks) c)
