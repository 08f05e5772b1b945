-- ===== src/Rdc/Blocks.antt =====
-- The memory of the readdir cache: each block stands in one slot, or has been freed once.
use mathlib.Core.List.{Perm, append_assoc}
use mathlib.Core.List.Perm
use mathlib.Core.List.Permᴰ
use mathlib.Core.Option.{some-injective}
use mathlib.Core.Path.{subst}
use mvfs.Prelude.{
  true, get_elem?-lt, replicate, length-replicate, length, ◌<◌, Option-cases, inl, inr, arith, ℕ,
  zero, suc, ◌≡◌, refl, sym, List, [], ◌∷◌, ◌++◌, none, some, get_elem?, set,
}
use mvfs.Rdc.{
  slot_for, put, cache_flush, cache_enter, unused, free_slot, Rce, Mnode, held, emptied,
  cache_empty,
}

-- The blocks in the slots.
pub blocks : List Rce → List (ℕ × ℕ)
blocks [] = []
blocks (ep ∷ es) = held ep ++ blocks es

abbrev pub cached : Mnode → List (ℕ × ℕ)
cached m = elim m.rddir_cache [ none ↦ [] | some es ↦ blocks es ]

exchange : (a b c : List (ℕ × ℕ)) → Perm (a ++ (b ++ c)) (b ++ (a ++ c))
exchange a b c =
    subst (λ l. Perm l (b ++ (a ++ c))) (append_assoc a b c)
      (subst (λ l. Perm ((a ++ b) ++ c) l) (append_assoc b a c)
        (Perm.append_right c ∣ Permᴰ.append_comm a b ∣₁))

set-blocks :
    (es : List Rce) (i : ℕ) (ep entry : Rce)
    → get_elem? es i ≡ some ep
    → Perm (held ep ++ blocks (set es i entry)) (held entry ++ blocks es)
unfolding blocks
set-blocks [] i ep entry e = cc
set-blocks (x ∷ es) zero ep entry e =
    subst (λ y. Perm (held y ++ (held entry ++ blocks es)) (held entry ++ (held x ++ blocks es)))
      (some-injective _ _ e) (exchange (held x) (held entry) (blocks es))
set-blocks (x ∷ es) (suc i) ep entry e =
    Perm.trans (exchange (held ep) (held x) (blocks (set es i entry))) (
      Perm.trans (Perm.append_left (held x) (set-blocks es i ep entry e))
        (exchange (held x) (held entry) (blocks es)))

emptied-held : (ep : Rce) → held (emptied ep) ≡ []
unfolding held
emptied-held ep = ground arith

-- The emptied cache holds nothing, and its blocks are freed.
cache_empty-blocks :
    (es : List Rce) (freed : List (ℕ × ℕ))
    → (blocks (cache_empty es freed).0 ≡ []) × Perm (cache_empty es freed).1 (blocks es ++ freed)
unfolding blocks cache_empty
cache_empty-blocks [] freed = (refl, Perm.refl freed)
cache_empty-blocks (ep ∷ es) freed =
    let ih = cache_empty-blocks es (held ep ++ freed) in
    (
      rw (emptied-held ep) ih.0,
      Perm.trans ih.1 (
          subst (λ l. Perm (blocks es ++ (held ep ++ freed)) l)
            (sym (append_assoc (held ep) (blocks es) freed))
            (exchange (blocks es) (held ep) freed)),
    )

-- A flush of the cache leaves no block in a slot, and frees those that were there, each once.
cache_flush-blocks :
    (m : Mnode) → (cached (cache_flush m) ≡ []) × Perm (cache_flush m).freed (cached m ++ m.freed)
unfolding cache_flush
cache_flush-blocks m = elim (Option-cases m.rddir_cache) [
  | inl e ↦ rw e (refl, Perm.refl m.freed)
  | inr (es, e) ↦ rw e (cache_empty-blocks es m.freed)
]

free_slot-lt : (es : List Rce) → 0 < length es → free_slot es < length es
unfolding free_slot
free_slot-lt [] pos = absurd (omega (arith, pos))
free_slot-lt (ep ∷ []) pos = omega arith
free_slot-lt (ep ∷ next ∷ es) pos = ground (arith, free_slot-lt (next ∷ es))

pub slot_for-lt : (es : List Rce) (entry : Rce) → 0 < length es → slot_for es entry < length es
slot_for-lt es entry pos = ground (arith, free_slot-lt es pos)

-- The write of an entry.
pub put-some :
    (es : List Rce) (freed : List (ℕ × ℕ)) (entry : Rce)
    → 0 < length es
    → (ep : Rce) × (get_elem? es (slot_for es entry) ≡ some ep)
      × (put es freed entry
          ≡ some (record {
            rddir_cache = some (set es (slot_for es entry) entry);
            freed = held ep ++ freed;
          }))
unfolding put
put-some es freed entry pos =
    let (ep, e) = get_elem?-lt es (slot_for es entry) (slot_for-lt es entry pos) in
    (ep, e, rw (put, e))

blank_blocks : (n : ℕ) → blocks (replicate n unused) ≡ []
unfolding blocks held
blank_blocks zero = refl
blank_blocks (suc n) = blank_blocks n

put-blocks :
    (es : List Rce) (freed : List (ℕ × ℕ)) (entry : Rce)
    → 0 < length es
    → (m' : Mnode) × (put es freed entry ≡ some m')
      × Perm (cached m' ++ m'.freed) (held entry ++ (blocks es ++ freed))
put-blocks es freed entry pos =
    let (ep, e, run) = put-some es freed entry pos in
    let i = slot_for es entry in
    let moved = Perm.append_right freed (
      Perm.trans ∣ Permᴰ.append_comm (blocks (set es i entry)) (held ep) ∣₁
        (set-blocks es i ep entry e)) in
    (
      _,
      run,
      subst (λ l. Perm l (held entry ++ (blocks es ++ freed)))
          (append_assoc (blocks (set es i entry)) (held ep) freed)
          (subst (λ l. Perm ((blocks (set es i entry) ++ held ep) ++ freed) l)
            (append_assoc (held entry) (blocks es) freed) moved),
    )

-- With the cache enabled, memory at hand and at least one slot, an entry goes into the cache without a
-- write outside the slots; its block and the blocks from before are then in a slot or freed, each once.
pub cache_enter-blocks :
    (n : ℕ) (m : Mnode) (entry : Rce)
    → 0 < n
    → ((es : List Rce) → m.rddir_cache ≡ some es → 0 < length es)
    → (m' : Mnode) × (cache_enter true true n m entry ≡ some m')
      × Perm (cached m' ++ m'.freed) (held entry ++ (cached m ++ m.freed))
unfolding cache_enter
cache_enter-blocks n m entry pos slots = elim (Option-cases m.rddir_cache) [
  | inr (es, e) ↦ rw e (put-blocks es m.freed entry (slots es e))
  | inl e ↦
      let size = length-replicate n unused in
      let (m', run, p) = put-blocks (replicate n unused) m.freed entry (omega (arith, pos, size)) in
      (
        m',
        rw e run,
        rw e (
            subst (λ l. Perm (cached m' ++ m'.freed) (held entry ++ (l ++ m.freed)))
              (blank_blocks n) p),
      )
]
