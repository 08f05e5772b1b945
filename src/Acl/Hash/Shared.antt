-- ===== src/Acl/Hash/Shared.antt =====
-- The table as a map from keys to the number of mnodes that have a list under the key.
use mvfs.Prelude.{
  ◌%◌, ◌^◌, ℕ, true, List, [], ◌∷◌, Option, none, some, ◌==◌, ◌≡◌, ◌≢◌, arith, refl, ◌⊎◌, inl, inr,
  Bool-cases, sym, ap, ◌∙◌, if◌then◌else◌, ◌+◌, ==_iff, All,
}
use mathlib.Core.Option.{some-injective}
use mvfs.Acl.Types.{Env, Table, Entry, Key, Mnode, key_eq, eaclhash}
use mvfs.Acl.Hash.{find_entry, key_of, store}
use mvfs.Acl.Hash.Invariant.{IsValid}
use mvfs.Acl.Hash.Lookup.{find_entry-cases, key_eq-≡, key_eq_refl}
use mvfs.Acl.Hash.Mnodes.{holds, takes, IsTied}

-- Whether an mnode has a handle and the key.
abbrev wants : Option ℕ → Key → Key → ℕ
wants none k key = 0
wants (some a) k key = if key_eq k key then 1 else 0

-- How many mnodes have a list under the key.
abbrev pub sharers : List Mnode → Key → ℕ
sharers [] key = 0
sharers (m ∷ ms) key = wants m.mn_aclh (key_of m) key + sharers ms key

module _ (env : Env) (t : Table) (h : ℕ → ℕ) (v : IsValid env t h) where
  takes-wants :
      (m : Mnode) (o : Option ℕ) (a : ℕ) (e : Entry)
      → m.mn_aclh ≡ o
      → IsTied t m
      → t.heap a ≡ some e
      → takes o a ≡ wants o (key_of m) e.key
  unfolding IsTied
  takes-wants m none a e q tied here = refl
  takes-wants m (some b) a e q tied here =
      let (nz, (f, there, k)) = tied b q in
      elim (Bool-cases (b == a)) [
        | inl y ↦
            let p = (==_iff b a).0 y in
            let g : e ≡ f = some-injective _ _ (sym here ∙ (ap t.heap (sym p) ∙ there)) in
            let r : key_eq (key_of m) e.key ≡ true =
              ap (key_eq (key_of m)) (ap (λ x. x.key) g ∙ k) ∙ key_eq_refl (key_of m) in
            ground arith
        | inr n ↦ elim (Bool-cases (key_eq (key_of m) e.key)) [
          | inl y ↦ absurd (
              let p = v.unique b a f e there here (k ∙ key_eq-≡ (key_of m) e.key y) in
              ground (arith, p))
          | inr z ↦ ground arith
        ]
      ]

  holds-sharers :
      (ms : List Mnode) (a : ℕ) (e : Entry)
      → All (IsTied t) ms
      → t.heap a ≡ some e
      → holds ms a ≡ sharers ms e.key
  holds-sharers [] a e tied here = refl
  holds-sharers (m ∷ ms) a e tied here =
      omega (arith, takes-wants m m.mn_aclh a e refl tied.0 here, holds-sharers ms a e tied.1 here)

  wants-none :
      (m : Mnode) (o : Option ℕ) (key : Key)
      → m.mn_aclh ≡ o
      → IsTied t m
      → ((a : ℕ) (e : Entry) → t.heap a ≡ some e → e.key ≢ key)
      → wants o (key_of m) key ≡ 0
  unfolding IsTied
  wants-none m none key q tied fresh = refl
  wants-none m (some b) key q tied fresh =
      let (nz, (f, there, k)) = tied b q in
      elim (Bool-cases (key_eq (key_of m) key)) [
        | inl y ↦ absurd (fresh b f there (k ∙ key_eq-≡ (key_of m) key y))
        | inr z ↦ ground arith
      ]

  sharers-none :
      (ms : List Mnode) (key : Key)
      → All (IsTied t) ms
      → ((a : ℕ) (e : Entry) → t.heap a ≡ some e → e.key ≢ key)
      → sharers ms key ≡ 0
  sharers-none [] key tied fresh = refl
  sharers-none (m ∷ ms) key tied fresh =
      omega (arith, wants-none m m.mn_aclh key refl tied.0 fresh, sharers-none ms key tied.1 fresh)

-- In a table that is valid for mnodes whose handles are tied to their keys, a key has one entry, whose count is the number of the mnodes that have a
-- list under the key, or there is none of both; the search of the code finds that entry and adds one to its count, modulo 2^32, or finds nothing
-- and leaves the table.
pub find_entry-sharers :
    (env : Env) (t : Table) (ms : List Mnode) (key : Key)
    → IsValid env t (holds ms)
    → All (IsTied t) ms
    → ((sharers ms key ≡ 0)
        × ((a : ℕ) (e : Entry) → t.heap a ≡ some e → e.key ≢ key)
        × (find_entry t key (eaclhash env t.eaclhash_size key) ≡ some (t, none)))
      ⊎ ((a : ℕ) × (e : Entry) × (t.heap a ≡ some e)
          × (e.key ≡ key)
          × (e.refcnt ≡ sharers ms key)
          × (sharers ms key ≢ 0)
          × ((b : ℕ) (f : Entry) → t.heap b ≡ some f → f.key ≡ key → b ≡ a)
          × (find_entry t key (eaclhash env t.eaclhash_size key)
              ≡ some (store t a (record e { refcnt = (e.refcnt + 1) % 2 ^ 32 }), some a)))
find_entry-sharers env t ms key v tied = elim (find_entry-cases env t (holds ms) key v) [
  | inl (q, fresh) ↦ inl (sharers-none env t (holds ms) v ms key tied fresh, fresh, q)
  | inr (a, e, here, k, q) ↦
      let (n, p) = v.held a e here in
      let s : holds ms a ≡ sharers ms key =
        holds-sharers env t (holds ms) v ms a e tied here ∙ ap (sharers ms) k in
      inr (
        a,
        e,
        here,
        k,
        n ∙ s,
        λ z. p (s ∙ z),
        λ b f there j. v.unique b a f e there here (j ∙ sym k),
        q,
      )
]
