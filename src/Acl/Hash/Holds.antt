-- ===== src/Acl/Hash/Holds.antt =====
-- Getting an entry is one hold more on it.
use mvfs.Prelude.{
  Option-cases, ℕ, Option, none, some, ◌≡◌, ◌≢◌, arith, refl, inl, inr, sym, ap, ◌∙◌, ◌+◌, ◌-◌, ◌%◌,
  ◌^◌, ◌<◌,
}
use mvfs.Acl.Types.{Env, World, Table, Entry, Key, eaclhash, Mnode}
use mvfs.Acl.Fetch.{validate_eaclh, update_eaclh}
use mvfs.Acl.Fetch.Update.{update_eaclh-ends}
use mvfs.Acl.Hash.{
  add_entry, put, store, eaclhash_get, get_new, insert_new, validate_at, requested, new_entry,
}
use mvfs.Acl.Hash.Invariant.{IsValid, store-IsValid, add_entry-IsValid, put_same, put_other}
use mvfs.Acl.Hash.Lookup.{find_entry-cases}

-- The allocator gives memory that no entry is in.
pub record IsAllocator (env : Env) : Type 0 where
  pub vacant :
      (n : ℕ) (heap : ℕ → Option Entry) (a : ℕ) → env.kmem_alloc n heap ≡ some a → heap a ≡ none

abbrev pub one_more : (ℕ → ℕ) → ℕ → ℕ → ℕ
one_more h a = put h a (h a + 1)

abbrev pub one_less : (ℕ → ℕ) → ℕ → ℕ → ℕ
one_less h a = put h a (h a - 1)

validate_eaclh-keeps :
    (env : Env) (mnp : Mnode) (w : World) (ep : Entry)
    → ((validate_eaclh env mnp w ep).0.key ≡ ep.key)
      × ((validate_eaclh env mnp w ep).0.refcnt ≡ ep.refcnt)
unfolding validate_eaclh
validate_eaclh-keeps env mnp w ep =
    let (k, r, c) = update_eaclh-ends env mnp w ep in (ground (arith, k), ground (arith, r))

stored : (t : Table) (a : ℕ) (e : Entry) → (store t a e).heap a ≡ some e
unfolding store
stored t a e = put_same t.heap a (some e)

-- A validation keeps the table and its holds.
pub validate_at-IsValid :
    (env : Env) (mnp : Mnode) (t : Table) (h : ℕ → ℕ) (a : ℕ) (e : Entry)
    → IsValid env t h
    → t.heap a ≡ some e
    → (u : Table) × (f : Entry) × (validate_at env mnp t a ≡ some u)
      × IsValid env u h
      × (u.heap a ≡ some f)
      × (f.key ≡ e.key)
unfolding validate_at
validate_at-IsValid env mnp t h a e v here =
    let r = validate_eaclh env mnp t.world e in
    let (k, c) = validate_eaclh-keeps env mnp t.world e in
    let (n, p) = v.held a e here in
    (
      record (store t a r.0) { world = r.1 },
      r.0,
      rw here refl,
      store-IsValid env t h h a e r.0 r.1 v here k (c ∙ n) p (λ b q. refl),
      stored t a r.0,
      k,
    )

-- What a get comes to.
pub data Got (env : Env) (t : Table) (h : ℕ → ℕ) (key : Key)
    : Option (Table × Option ℕ) → Type 0 where
  got :
      {r : Option (Table × Option ℕ)} (u : Table) (a : ℕ) (e : Entry)
      → r ≡ some (u, some a)
      → IsValid env u (one_more h a)
      → u.heap a ≡ some e
      → e.key ≡ key
      → Got env t h key r
  refused :
      {r : Option (Table × Option ℕ)} (u : Table)
      → r ≡ some (u, none)
      → IsValid env u h
      → env.kmem_alloc t.world.allocs t.heap ≡ none
      → ((a : ℕ) (e : Entry) → t.heap a ≡ some e → e.key ≢ key)
      → Got env t h key r

requested-IsValid :
    (env : Env) (t : Table) (h : ℕ → ℕ) → IsValid env t h → IsValid env (requested t) h
unfolding requested
requested-IsValid env t h v = record {
  linked = v.linked;
  listed = v.listed;
  held = v.held;
  unheld = v.unheld;
  unique = v.unique;
  counted = v.counted;
}

inserted :
    (t : Table) (a i : ℕ) (e : Entry) (w : World)
    → (add_entry (record (store t a e) { world = w }) a i).heap a ≡ some e
unfolding store add_entry
inserted t a i e w = put_same t.heap a (some e)

insert_new-IsValid :
    (env : Env) (mnp : Mnode) (t : Table) (h : ℕ → ℕ) (a : ℕ) (key : Key)
    → IsValid env t h
    → t.heap a ≡ none
    → ((b : ℕ) (e : Entry) → t.heap b ≡ some e → e.key ≢ key)
    → (u : Table) × (e : Entry) × (insert_new env mnp t key (eaclhash env t.eaclhash_size key) a
        ≡ u)
      × IsValid env u (one_more h a)
      × ((u.heap a ≡ some e) × (e.key ≡ key))
unfolding insert_new
insert_new-IsValid env mnp t h a key v vacant fresh =
    let r = update_eaclh env mnp t.world (new_entry key) in
    let (k, c, q) = update_eaclh-ends env mnp t.world (new_entry key) in
    let n = v.unheld a vacant in
    (
      add_entry (record (store t a r.0) { world = r.1 }) a (eaclhash env t.eaclhash_size r.0.key),
      r.0,
      ap
          (λ x.
            add_entry (record (store t a r.0) { world = r.1 }) a (eaclhash env t.eaclhash_size x))
          (sym k),
      add_entry-IsValid env t h (one_more h a) a r.0 r.1 v vacant (λ b e x y. fresh b e x (y ∙ k)) c
          (put_same h a (h a + 1) ∙ omega (arith, n)) (λ b p. put_other h a (h a + 1) b p),
      (inserted t a _ r.0 r.1, k),
    )

get_new-Got :
    (env : Env) (mnp : Mnode) (t : Table) (h : ℕ → ℕ) (key : Key)
    → IsAllocator env
    → IsValid env t h
    → ((a : ℕ) (e : Entry) → t.heap a ≡ some e → e.key ≢ key)
    → Got env t h key (some (get_new env mnp t key (eaclhash env t.eaclhash_size key)))
unfolding get_new requested
get_new-Got env mnp t h key alloc v fresh =
    elim (Option-cases (env.kmem_alloc t.world.allocs t.heap)) [
      | inl n ↦
          Got.refused (requested t) (rw (n, get_new) refl) (requested-IsValid env t h v) n fresh
      | inr (a, q) ↦
          let z = alloc.vacant t.world.allocs t.heap a q in
          let (u, e, w, x, k) =
            insert_new-IsValid env mnp (requested t) h a key (requested-IsValid env t h v) z
              fresh in
          Got.got u a e (rw (q, get_new) (ap (λ y. some (y, some a)) w)) x k.0 k.1
    ]

hold-IsValid :
    (env : Env) (t : Table) (h : ℕ → ℕ) (a : ℕ) (e : Entry)
    → IsValid env t h
    → t.heap a ≡ some e
    → h a + 1 < 2 ^ 32
    → IsValid env (store t a (record e { refcnt = (e.refcnt + 1) % 2 ^ 32 })) (one_more h a)
unfolding store
hold-IsValid env t h a e v here lt =
    let (n, p) = v.held a e here in
    store-IsValid env t h (one_more h a) a e (record e { refcnt = (e.refcnt + 1) % 2 ^ 32 }) t.world
      v here refl (omega (arith, n, put_same h a (h a + 1)))
      (λ z. omega (arith, z, put_same h a (h a + 1))) (λ b q. put_other h a (h a + 1) b q)

-- Whether or not the key is there, a get ends without a fault: with one hold more on the entry with the key,
-- or, if there was none and the allocator refuses, with nothing.
pub eaclhash_get-Got :
    (env : Env) (mnp : Mnode) (t : Table) (h : ℕ → ℕ) (key : Key)
    → IsAllocator env
    → IsValid env t h
    → ((a : ℕ) → h a + 1 < 2 ^ 32)
    → Got env t h key (eaclhash_get env mnp t key)
unfolding eaclhash_get
eaclhash_get-Got env mnp t h key alloc v lt = elim (find_entry-cases env t h key v) [
  | inl (q, fresh) ↦ rw q (get_new-Got env mnp t h key alloc v fresh)
  | inr (a, e, here, k, q) ↦
      let less = record e { refcnt = (e.refcnt + 1) % 2 ^ 32 } in
      let (u, f, w, x, y, z) =
        validate_at-IsValid env mnp (store t a less) (one_more h a) a less
          (hold-IsValid env t h a e v here (lt a)) (stored t a less) in
      Got.got u a f (rw (q, w) refl) x y (z ∙ k)
]
