-- ===== src/Xdr/Middle.antt =====
-- The entries of a block, between those of the blocks before and after it.
use mathlib.Core.List.{append_assoc}
use mvfs.Prelude.{
  ◌<◌, ℕ, zero, suc, List, [], ◌∷◌, ◌++◌, map, ◌+◌, set, replicate, length, ◌≡◌, refl, sym, ap, ◌∙◌,
  arith, length-append,
}
use mvfs.Acl.Permission.{CookedEnt}
use mvfs.Xdr.{Item, Coded, blank, decode_ents}

set-middle :
    (pre post : List CookedEnt) (d e : CookedEnt)
    → set (pre ++ (d ∷ post)) (length pre) e ≡ pre ++ (e ∷ post)
set-middle [] post d e = refl
set-middle (p ∷ pre) post d e = ap (λ l. p ∷ l) (set-middle pre post d e)

snoc : (pre post : List CookedEnt) (e : CookedEnt) → (pre ++ (e ∷ [])) ++ post ≡ pre ++ (e ∷ post)
snoc pre post e = append_assoc pre (e ∷ []) post

length-snoc : (pre : List CookedEnt) (e : CookedEnt) → length (pre ++ (e ∷ [])) ≡ length pre + 1
length-snoc pre e = length-append pre (e ∷ [])

decode_ents-zero :
    (i : ℕ) (stream : List Item) (ents : List CookedEnt)
    → decode_ents zero i stream ents ≡ Coded.ok (ents, stream)
unfolding decode_ents
decode_ents-zero i stream ents = refl

decode_ents-step :
    (n i : ℕ) (stream : List Item) (ents : List CookedEnt) (x : CookedEnt)
    → i < length ents
    → decode_ents (suc n) i (Item.cooked_ent x ∷ stream) ents
      ≡ decode_ents n (i + 1) stream (set ents i x)
unfolding decode_ents
decode_ents-step n i stream ents x lt = ground arith

-- The decoding of entries into the blank places behind those that are there.
pub decode_ents-middle :
    (pre xs post : List CookedEnt) (rest : List Item) (i : ℕ)
    → i ≡ length pre
    → decode_ents
        (length xs)
        i
        (map Item.cooked_ent xs ++ rest)
        (pre ++ (replicate (length xs) blank ++ post))
      ≡ Coded.ok (pre ++ (xs ++ post), rest)
decode_ents-middle pre [] post rest i e = decode_ents-zero i rest (pre ++ post)
decode_ents-middle pre (x ∷ xs) post rest i e =
    let room = replicate (length xs) blank ++ post in
    let ih =
      decode_ents-middle (pre ++ (x ∷ [])) xs post rest (i + 1)
        (ap (λ k. k + 1) e ∙ sym (length-snoc pre x)) in
    let put_it : set (pre ++ (blank ∷ room)) i x ≡ (pre ++ (x ∷ [])) ++ room =
      ap (λ k. set (pre ++ (blank ∷ room)) k x) e
      ∙ (set-middle pre room blank x ∙ sym (snoc pre room x)) in
    decode_ents-step (length xs) i (map Item.cooked_ent xs ++ rest) (pre ++ (blank ∷ room)) x
      (omega (arith, e, length-append pre (blank ∷ room)))
    ∙ (ap (decode_ents (length xs) (i + 1) (map Item.cooked_ent xs ++ rest)) put_it
        ∙ (ih ∙ ap (λ l. Coded.ok (l, rest)) (snoc pre (xs ++ post) x)))
