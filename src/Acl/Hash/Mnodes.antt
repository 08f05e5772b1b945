-- ===== src/Acl/Hash/Mnodes.antt =====
-- The mnodes as the holders of the entries: what caching and dropping a list do to the table.
use mathlib.Core.Path.{subst}
use mathlib.Core.Option.{some-injective}
use mvfs.Prelude.{
  ℕ, zero, suc, true, List, [], ◌∷◌, Option, none, some, ◌==◌, ◌≡◌, ◌≢◌, arith, refl, inl, inr,
  Bool-cases, sym, ap, ◌∙◌, if◌then◌else◌, ◌+◌, ◌^◌, ◌<◌, ◌≤◌, ==_iff, length, get_elem?, set,
  Option-cases,
}
use mvfs.Acl.Types.{Env, Table, Entry, Key, Mnode}
use mvfs.Acl.Hash.{
  ◌>>=◌, eaclhash_get, eaclhash_release, swap_handle, same_handle, acl_cache, acl_uncache, key_of,
}
use mvfs.Acl.Hash.Invariant.{IsValid}
use mvfs.Acl.Hash.Holds.{Got, IsAllocator, one_more, one_less, eaclhash_get-Got}
use mvfs.Acl.Hash.Release.{eaclhash_release-IsValid, Origin}

-- The hold of a handle on an address.
abbrev pub takes : Option ℕ → ℕ → ℕ
takes none b = 0
takes (some a) b = if a == b then 1 else 0

-- How many of the mnodes hold an address.
abbrev pub holds : List Mnode → ℕ → ℕ
holds [] b = 0
holds (m ∷ ms) b = takes m.mn_aclh b + holds ms b

takes-le : (o : Option ℕ) (b : ℕ) → takes o b ≤ 1
takes-le none b = omega arith
takes-le (some a) b = ground arith

holds-le : (ms : List Mnode) (b : ℕ) → holds ms b ≤ length ms
holds-le [] b = omega arith
holds-le (m ∷ ms) b = omega (arith, holds-le ms b, takes-le m.mn_aclh b)

holds-set :
    (ms : List Mnode) (i : ℕ) (m n : Mnode) (b : ℕ)
    → get_elem? ms i ≡ some m
    → holds (set ms i n) b + takes m.mn_aclh b ≡ holds ms b + takes n.mn_aclh b
holds-set [] i m n b e = absurd (cc)
holds-set (x ∷ ms) zero m n b e = omega (arith, ap (λ y. takes y.mn_aclh b) (some-injective _ _ e))
holds-set (x ∷ ms) (suc i) m n b e = omega (arith, holds-set ms i m n b e)

IsValid-ext :
    (env : Env) (t : Table) (h k : ℕ → ℕ)
    → ((b : ℕ) → k b ≡ h b)
    → IsValid env t h
    → IsValid env t k
IsValid-ext env t h k p v = record {
  linked = v.linked;
  listed = v.listed;
  held = λ b e q. rw (p b) (v.held b e q);
  unheld = λ b q. p b ∙ v.unheld b q;
  unique = v.unique;
  counted = v.counted;
}

taken : (a : ℕ) (h k : ℕ → ℕ) → ((b : ℕ) → k b + takes (some a) b ≡ h b) → h a ≢ 0
taken a h k p z = let q = p a in ground (arith, q, z)

left :
    (a : ℕ) (h k : ℕ → ℕ)
    → ((b : ℕ) → k b + takes (some a) b ≡ h b)
    → (b : ℕ) → k b ≡ one_less h a b
left a h k p b =
    let q = p a in
    let r = p b in
    elim (Bool-cases (b == a)) [
      | inl y ↦ let e = (==_iff b a).0 y in rw e (ground (arith, q))
      | inr n ↦ ground (arith, r)
    ]

release_some :
    (env : Env) (t : Table) (h k : ℕ → ℕ) (a : ℕ)
    → IsValid env t h
    → ((b : ℕ) → h b < 2 ^ 32)
    → ((b : ℕ) → k b + takes (some a) b ≡ h b)
    → (u : Table) × (eaclhash_release env t (some a) ≡ some u) × IsValid env u k × Origin t u
release_some env t h k a v lt p =
    let (u, e, q, w, here, last, more, g) =
      eaclhash_release-IsValid env t h a v (λ z. taken a h k p z) (lt a) in
    (u, q, IsValid-ext env u (one_less h a) k (λ b. left a h k p b) w, g)

-- A release of a handle that may be NULL.
release-IsValid :
    (env : Env) (t : Table) (h k : ℕ → ℕ) (o : Option ℕ)
    → IsValid env t h
    → ((b : ℕ) → h b < 2 ^ 32)
    → ((b : ℕ) → k b + takes o b ≡ h b)
    → (u : Table) × (eaclhash_release env t o ≡ some u) × IsValid env u k × Origin t u
unfolding eaclhash_release
release-IsValid env t h k none v lt p =
    (t, refl, IsValid-ext env t h k (λ b. omega (arith, p b)) v, λ b g q. (g, q, refl))
release-IsValid env t h k (some a) v lt p = release_some env t h k a v lt p

abbrev with_handle : Mnode → Option ℕ → Mnode
with_handle m o = record m { mn_aclh = o }

holds-get_elem? :
    (ms : List Mnode) (i : ℕ) (m : Mnode) (b : ℕ)
    → get_elem? ms i ≡ some m
    → takes m.mn_aclh b ≤ holds ms b
holds-get_elem? [] i m b e = absurd (cc)
holds-get_elem? (x ∷ ms) zero m b e =
    omega (arith, ap (λ y. takes y.mn_aclh b) (some-injective _ _ e))
holds-get_elem? (x ∷ ms) (suc i) m b e = omega (arith, holds-get_elem? ms i m b e)

takes_self : (a : ℕ) → takes (some a) a ≡ 1
takes_self a = ground arith

one_more-takes : (h : ℕ → ℕ) (a b : ℕ) → one_more h a b ≡ h b + takes (some a) b
one_more-takes h a b = ground arith

-- The handle of an mnode stands for an entry of the mnode's own rolemap, replica and kind of view.
unfoldable pub IsTied : Table → Mnode → Type 0
IsTied t m =
    (a : ℕ)
    → m.mn_aclh ≡ some a
    → (m.rolemap_oid ≢ 0) × ((e : Entry) × (t.heap a ≡ some e) × (e.key ≡ key_of m))

untied : (t : Table) (m : Mnode) → IsTied t (with_handle m none)
unfolding IsTied
untied t m b y = absurd (cc)

held_entry :
    (env : Env) (t u : Table) (h : ℕ → ℕ) (a : ℕ) (e : Entry) (key : Key)
    → IsValid env u h
    → Origin t u
    → h a ≢ 0
    → t.heap a ≡ some e
    → e.key ≡ key
    → (g : Entry) × (u.heap a ≡ some g) × (g.key ≡ key)
held_entry env t u h a e key v origin pos here k = elim (Option-cases (u.heap a)) [
  | inl n ↦ absurd (pos (v.unheld a n))
  | inr (g, q) ↦
      let (f, r, s) = origin a g q in
      (g, q, s ∙ (ap (λ x. x.key) (some-injective _ _ (sym r ∙ here)) ∙ k))
]

same_handle-≡ : (a b : Option ℕ) → same_handle a b ≡ true → a ≡ b
same_handle-≡ none none h = refl
same_handle-≡ none (some b) h = absurd (cc)
same_handle-≡ (some a) none h = absurd (cc)
same_handle-≡ (some a) (some b) h = ap some ((==_iff a b).0 h)

module _ (env : Env) (ms : List Mnode) (i : ℕ) (m : Mnode) (at : get_elem? ms i ≡ some m) where
  -- The handle just got takes the place of the old one.
  swap_handle-IsValid :
      (t : Table) (h : ℕ → ℕ) (o : Option ℕ)
      → IsValid env t h
      → ((b : ℕ) → h b ≡ holds ms b + takes o b)
      → ((b : ℕ) → h b < 2 ^ 32)
      → (u : Table) × (swap_handle env m (t, o) ≡ some (u, with_handle m o))
        × IsValid env u (holds (set ms i (with_handle m o)))
        × Origin t u
  unfolding swap_handle
  swap_handle-IsValid t h o v p lt = elim (Bool-cases (same_handle m.mn_aclh o)) [
    | inl y ↦
        let e = same_handle-≡ m.mn_aclh o y in
        let (u, q, w, g) = release-IsValid env t h (holds (set ms i (with_handle m o))) o v lt (λ b.
          omega (arith, p b, holds-set ms i m (with_handle m o) b at, ap (λ x. takes x b) e)) in
        (u, rw (y, q) (ap (λ x. some (u, record m { mn_aclh = x })) e), w, g)
    | inr n ↦
        let (u, q, w, g) =
          release-IsValid env t h (holds (set ms i (with_handle m o))) m.mn_aclh v lt
            (λ b. omega (arith, p b, holds-set ms i m (with_handle m o) b at)) in
        (u, rw (n, q) refl, w, g)
  ]

  -- An mnode lets its list go: no fault, and the table counts one hold less for it.
  acl_uncache-IsValid :
      (t : Table)
      → IsValid env t (holds ms)
      → length ms < 2 ^ 32
      → (u : Table) × (acl_uncache env t m ≡ some (u, with_handle m none))
        × IsValid env u (holds (set ms i (with_handle m none)))
        × Origin t u
  unfolding acl_uncache
  acl_uncache-IsValid t v lt =
      let (u, q, w, g) =
        release-IsValid env t (holds ms) (holds (set ms i (with_handle m none))) m.mn_aclh v
          (λ b. omega (arith, holds-le ms b, lt))
          (λ b. omega (arith, holds-set ms i m (with_handle m none) b at)) in
      (u, rw q refl, w, g)

  -- With a rolemap: an entry for it, or NULL where the allocator refuses.
  cache_key :
      (t : Table)
      → IsAllocator env
      → IsValid env t (holds ms)
      → length ms + 1 < 2 ^ 32
      → m.rolemap_oid ≢ 0
      → (u : Table) × (o : Option ℕ) × ((eaclhash_get env m t (key_of m) >>= swap_handle env m)
          ≡ some (u, with_handle m o))
        × IsValid env u (holds (set ms i (with_handle m o)))
        × IsTied u (with_handle m o)
  unfolding IsTied
  cache_key t alloc v lt nz =
      elim (eaclhash_get-Got env m t (holds ms) (key_of m) alloc v
        (λ b. omega (arith, holds-le ms b))) [
          | Got.got r a e q w here k ↦
              let (u, s, x, g) =
                swap_handle-IsValid r (one_more (holds ms) a) (some a) w
                  (one_more-takes (holds ms) a)
                  (λ b.
                    omega
                      (arith, one_more-takes (holds ms) a b, holds-le ms b, takes-le (some a) b)) in
              (
                u,
                some a,
                rw q s,
                x,
                λ b y.
                    let p = some-injective _ _ y in
                    (
                      nz,
                      subst (λ c. (f : Entry) × (u.heap c ≡ some f) × (f.key ≡ key_of m)) p
                          (held_entry env r u (holds (set ms i (with_handle m (some a)))) a e
                            (key_of m) x g
                            (λ z. omega (
                              arith,
                              z,
                              holds-set ms i m (with_handle m (some a)) a at,
                              holds-get_elem? ms i m a at,
                              takes_self a,
                            ))
                            here k),
                    ),
              )
          | Got.refused r q w n fresh ↦
              let (u, s, x, g) =
                swap_handle-IsValid r (holds ms) none w (λ b. omega arith)
                  (λ b. omega (arith, holds-le ms b)) in
              (u, none, rw q s, x, λ b y. absurd (cc))
        ]

  -- If the table is valid for the mnodes, of which there are fewer than 2 ^ 32 - 1, and the allocator gives memory that is not in use, then the caching of
  -- the list of one of them ends without a fault; it changes the handle of that mnode at most, the table is valid for the mnodes with the new handle, and
  -- the handle is NULL or stands for an entry of the mnode's own rolemap, replica and kind of view, and only where there is a rolemap.
  pub acl_cache-IsValid :
      (t : Table)
      → IsAllocator env
      → IsValid env t (holds ms)
      → length ms + 1 < 2 ^ 32
      → (u : Table) × (o : Option ℕ) × (acl_cache env t m ≡ some (u, with_handle m o))
        × IsValid env u (holds (set ms i (with_handle m o)))
        × IsTied u (with_handle m o)
  unfolding acl_cache
  acl_cache-IsValid t alloc v lt = elim (Bool-cases (m.rolemap_oid == 0)) [
    | inl y ↦
        let (u, q, w, g) = acl_uncache-IsValid t v (omega arith) in (u, none, rw y q, w, untied u m)
    | inr n ↦ rw n (cache_key t alloc v lt (λ z. ground (arith, z)))
  ]
