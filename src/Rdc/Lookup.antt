-- ===== src/Rdc/Lookup.antt =====
-- What a lookup in the readdir cache finds after an entry has gone in.
use mathlib.Core.Path.{subst}
use mathlib.Core.Option.{some-injective}
use mvfs.Prelude.{
  Option, Bool, ◌++◌, Bool-cases, ℕ, zero, suc, ◌<◌, ◌≡◌, ◌≢◌, refl, ap, ◌∙◌, true, false, List, [],
  ◌∷◌, none, some, get_elem?, set, arith, All, length, leb, if◌then◌else◌, inl, inr, Option-cases,
  replicate, length-replicate,
}
use mvfs.Rdc.{
  cache_empty, cache_flush, cache_get, held, Rce, Mnode, put, slot_for, usable, unused, cache_enter,
  free_slot,
}
use mvfs.Rdc.Blocks.{put-some, slot_for-lt}

-- No valid slot has the offset.
abbrev Lacks : ℕ → List Rce → Type 0
Lacks offset es = All (λ ep. ep.valid ≡ true → ep.offset ≢ offset) es

usable-Lacks : (offset resid : ℕ) (es : List Rce) → Lacks offset es → usable es offset resid ≡ none
unfolding usable
usable-Lacks offset resid [] p = refl
usable-Lacks offset resid (ep ∷ es) p = ground (arith, p.0, usable-Lacks offset resid es p.1)

-- A new entry is the one that its offset finds.
usable-set :
    (es : List Rce) (i resid : ℕ) (entry : Rce)
    → i < length es
    → entry.valid ≡ true
    → Lacks entry.offset es
    → usable (set es i entry) entry.offset resid
      ≡ (if leb entry.size resid then some entry else none)
unfolding usable
usable-set [] i resid entry lt valid p = absurd (omega (arith, lt))
usable-set (ep ∷ es) zero resid entry lt valid p =
    ground (arith, valid, usable-Lacks entry.offset resid es p.1)
usable-set (ep ∷ es) (suc i) resid entry lt valid p =
    ground (arith, p.0, usable-set es i resid entry (omega (arith, lt)) valid p.1)

-- Another offset finds what it found, if the slot that is written was not valid.
usable-set_other :
    (es : List Rce) (i offset resid : ℕ) (entry ep : Rce)
    → get_elem? es i ≡ some ep
    → ep.valid ≡ false
    → entry.offset ≢ offset
    → usable (set es i entry) offset resid ≡ usable es offset resid
unfolding usable
usable-set_other [] i offset resid entry ep e free ne = refl
usable-set_other (x ∷ es) zero offset resid entry ep e free ne =
    let same : x ≡ ep = some-injective _ _ e in
    let x_free : x.valid ≡ false = ap (λ (r : Rce). r.valid) same ∙ free in
    ground (arith, x_free, ne)
usable-set_other (x ∷ es) (suc i) offset resid entry ep e free ne =
    ground (arith, usable-set_other es i offset resid entry ep e free ne)

-- Where a slot behind the first is not valid, `free_slot` gives one that is not.
free_slot-free :
    (es : List Rce) (k : ℕ) (ep : Rce)
    → 0 < k
    → get_elem? es k ≡ some ep
    → ep.valid ≡ false
    → (r : Rce) × (get_elem? es (free_slot es) ≡ some r) × (r.valid ≡ false)
unfolding free_slot
free_slot-free [] k ep pos e free = cc
free_slot-free (x ∷ es) zero ep pos e free = absurd (omega (arith, pos))
free_slot-free (x ∷ []) (suc k) ep pos e free = cc
free_slot-free (x ∷ y ∷ es) (suc zero) ep pos e free =
    let same : y ≡ ep = some-injective _ _ e in
    let here : y.valid ≡ false = ap (λ (r : Rce). r.valid) same ∙ free in
    (
      y,
      ap (get_elem? (x ∷ y ∷ es)) {x = free_slot (x ∷ y ∷ es)} {y = 1} (ground (arith, here)),
      here,
    )
free_slot-free (x ∷ y ∷ es) (suc (suc k)) ep pos e free = elim (Bool-cases y.valid) [
  | inr here ↦ (
    y,
    ap (get_elem? (x ∷ y ∷ es)) {x = free_slot (x ∷ y ∷ es)} {y = 1} (ground (arith, here)),
    here,
  )
  | inl full ↦
      let (r, at, r_free) = free_slot-free (y ∷ es) (suc k) ep (omega arith) e free in
      (
        r,
        ap (get_elem? (x ∷ y ∷ es)) {x = free_slot (x ∷ y ∷ es)} {y = suc (free_slot (y ∷ es))}
              (ground (arith, full))
            ∙ at,
        r_free,
      )
]

abbrev pub slots_of : Mnode → List Rce
slots_of m = elim m.rddir_cache [ none ↦ [] | some es ↦ es ]

put-finds :
    (es : List Rce) (freed : List (ℕ × ℕ)) (entry : Rce)
    → 0 < length es
    → entry.valid ≡ true
    → Lacks entry.offset es
    → (m' : Mnode) × (put es freed entry ≡ some m')
      × ((resid : ℕ)
          → usable (slots_of m') entry.offset resid
            ≡ (if leb entry.size resid then some entry else none))
put-finds es freed entry pos valid missing =
    let (ep, e, run) = put-some es freed entry pos in
    (
      _,
      run,
      λ resid.
          usable-set es (slot_for es entry) resid entry (slot_for-lt es entry pos) valid missing,
    )

Lacks-blank : (offset n : ℕ) → Lacks offset (replicate n unused)
Lacks-blank offset zero = tt
Lacks-blank offset (suc n) = (λ e. cc, Lacks-blank offset n)

-- With the cache enabled, memory at hand and at least one slot, a valid entry at an offset that no valid
-- slot has is entered without a write outside the slots; a lookup of its offset then finds it where the
-- caller has room for its size, and nothing otherwise.
pub cache_enter-finds :
    (n : ℕ) (m : Mnode) (entry : Rce)
    → 0 < n
    → ((es : List Rce) → m.rddir_cache ≡ some es → 0 < length es)
    → entry.valid ≡ true
    → Lacks entry.offset (slots_of m)
    → (m' : Mnode) × (cache_enter true true n m entry ≡ some m')
      × ((resid : ℕ)
          → usable (slots_of m') entry.offset resid
            ≡ (if leb entry.size resid then some entry else none))
unfolding cache_enter
cache_enter-finds n m entry pos slots valid missing = elim (Option-cases m.rddir_cache) [
  | inr (es, e) ↦
      let here : Lacks entry.offset es =
        subst (λ o. Lacks entry.offset (elim o [ none ↦ [] | some es ↦ es ])) e missing in
      rw e (put-finds es m.freed entry (slots es e) valid here)
  | inl e ↦
      let size = length-replicate n unused in
      rw e (
        put-finds (replicate n unused) m.freed entry (omega (arith, pos, size)) valid
          (Lacks-blank entry.offset n))
]

-- An entry that is not at offset 0 goes into a cache with a slot behind the first that is not valid: the
-- lookups of all other offsets are as before.
cache_enter-keeps :
    (n k : ℕ) (m : Mnode) (es : List Rce) (entry ep : Rce)
    → m.rddir_cache ≡ some es
    → entry.offset ≢ 0
    → 0 < k
    → get_elem? es k ≡ some ep
    → ep.valid ≡ false
    → (m' : Mnode) × (cache_enter true true n m entry ≡ some m')
      × ((offset resid : ℕ)
          → entry.offset ≢ offset
          → usable (slots_of m') offset resid ≡ usable es offset resid)
unfolding cache_enter put
cache_enter-keeps n k m es entry ep there ne pos e free =
    let (r, at, r_free) = free_slot-free es k ep pos e free in
    let slot : slot_for es entry ≡ free_slot es = ground (arith, ne) in
    (
      record { rddir_cache = some (set es (free_slot es) entry); freed = held r ++ m.freed },
      rw (there, put, slot, at, slot),
      λ offset resid other. usable-set_other es (free_slot es) offset resid entry r at r_free other,
    )

cache_empty-usable :
    (es : List Rce) (freed : List (ℕ × ℕ)) (offset resid : ℕ)
    → usable (cache_empty es freed).0 offset resid ≡ none
unfolding cache_empty usable
cache_empty-usable [] freed offset resid = refl
cache_empty-usable (ep ∷ es) freed offset resid =
    ground (arith, cache_empty-usable es (held ep ++ freed) offset resid)

-- After a flush every lookup misses.
cache_flush-misses :
    (enabled : Bool) (move : Option ℕ → ℕ → ℕ → ℕ × Bool) (m : Mnode) (offset resid : ℕ)
    → cache_get enabled move (cache_flush m) offset resid ≡ none
unfolding cache_flush cache_get
cache_flush-misses false move m offset resid = refl
cache_flush-misses true move m offset resid = elim (Option-cases m.rddir_cache) [
  | inl e ↦ rw (e, e)
  | inr (es, e) ↦ rw (e, cache_empty-usable es m.freed offset resid)
]
