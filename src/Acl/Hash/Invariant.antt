-- ===== src/Acl/Hash/Invariant.antt =====
-- What holds of the table of effective lists, and how changes of one entry keep it.
use mathlib.Core.Option.{some-injective}
use mvfs.Prelude.{
  ℕ, suc, List, [], ◌∷◌, Option, none, some, ◌==◌, ◌≡◌, ◌≢◌, arith, ◌⊎◌, inl, inr, Bool-cases, sym,
  ap, ◌∙◌, if◌then◌else◌, ◌+◌, ◌%◌, ◌^◌, ==_iff, length,
}
use mvfs.Acl.Types.{Env, World, Table, Entry, eaclhash}
use mvfs.Acl.Hash.{put, store, add_entry}

-- How often an address stands in a chain.
abbrev pub occurs : ℕ → List ℕ → ℕ
occurs a [] = 0
occurs a (b ∷ rest) = (if b == a then 1 else 0) + occurs a rest

-- `h` says how many hold each address. Each entry in memory stands once, in the chain of its key;
-- the chains have nothing else; the counts are those of the holders, and no entry is without one;
-- keys differ; the counts of the chains are right.
pub record IsValid (env : Env) (t : Table) (h : ℕ → ℕ) : Type 0 where
  pub linked :
      (a : ℕ) (e : Entry)
      → t.heap a ≡ some e
      → occurs a (t.chain (eaclhash env t.eaclhash_size e.key)) ≡ 1
  pub listed :
      (i a : ℕ)
      → occurs a (t.chain i) ≢ 0
      → (e : Entry) × (t.heap a ≡ some e) × (eaclhash env t.eaclhash_size e.key ≡ i)
  pub held : (a : ℕ) (e : Entry) → t.heap a ≡ some e → (e.refcnt ≡ h a) × (h a ≢ 0)
  pub unheld : (a : ℕ) → t.heap a ≡ none → h a ≡ 0
  pub unique :
      (a b : ℕ) (e f : Entry) → t.heap a ≡ some e → t.heap b ≡ some f → e.key ≡ f.key → a ≡ b
  pub counted : (i : ℕ) → t.entry_cnt i ≡ length (t.chain i) % 2 ^ 32

pub put_same {ℓ} : {A : Type ℓ} (f : ℕ → A) (a : ℕ) (v : A) → put f a v a ≡ v
put_same f a v = ground arith

pub put_other {ℓ} : {A : Type ℓ} (f : ℕ → A) (a : ℕ) (v : A) (b : ℕ) → b ≢ a → put f a v b ≡ f b
put_other f a v b n = ground arith

-- The entry at b after a write at a.
pub at_put :
    (f : ℕ → Option Entry) (a b : ℕ) (v e : Entry)
    → put f a (some v) b ≡ some e
    → ((b ≡ a) × (v ≡ e)) ⊎ ((b ≢ a) × (f b ≡ some e))
at_put f a b v e q = elim (Bool-cases (b == a)) [
  | inl y ↦ inl ((==_iff b a).0 y, some-injective _ _ (ground arith))
  | inr n ↦ inr ((λ p. ground (arith, p)), ground arith)
]

at_put-none :
    (f : ℕ → Option Entry) (a b : ℕ) (v : Entry)
    → put f a (some v) b ≡ none
    → (b ≢ a) × (f b ≡ none)
at_put-none f a b v q = ((λ p. ground (arith, p)), ground arith)

pub one_entry :
    (f : ℕ → Option Entry) (a b : ℕ) (d e : Entry) → f a ≡ some d → f b ≡ some e → b ≡ a → e ≡ d
one_entry f a b d e x y p = some-injective _ _ (sym y ∙ (ap f p ∙ x))

-- A write to an entry that keeps its key.
pub store-IsValid :
    (env : Env) (t : Table) (h k : ℕ → ℕ) (a : ℕ) (old new : Entry) (w : World)
    → IsValid env t h
    → t.heap a ≡ some old
    → new.key ≡ old.key
    → new.refcnt ≡ k a
    → k a ≢ 0
    → ((b : ℕ) → b ≢ a → k b ≡ h b)
    → IsValid env (record (store t a new) { world = w }) k
unfolding store
store-IsValid env t h k a old new w v here key cnt pos rest = record {
  linked = λ b e q. elim (at_put t.heap a b new e q) [
    | inl (p, r) ↦ rw (p, ← r, key) (v.linked a old here)
    | inr (p, r) ↦ v.linked b e r
  ];
  listed = λ i b o.
      let (e, q, s) = v.listed i b o in
      elim (Bool-cases (b == a)) [
        | inl y ↦
            let p = (==_iff b a).0 y in
            (
              new,
              ground arith,
              ap (eaclhash env t.eaclhash_size)
                    (key ∙ ap (λ x. x.key) (sym (one_entry t.heap a b old e here q p)))
                  ∙ s,
            )
        | inr n ↦ (e, ground arith, s)
      ];
  held = λ b e q. elim (at_put t.heap a b new e q) [
    | inl (p, r) ↦ rw (p, ← r) (cnt, pos)
    | inr (p, r) ↦ rw (rest b p) (v.held b e r)
  ];
  unheld = λ b q. let (n, z) = at_put-none t.heap a b new q in rest b n ∙ v.unheld b z;
  unique = λ b c e f q r s. elim (at_put t.heap a b new e q) [
    | inl (p, x) ↦ elim (at_put t.heap a c new f r) [
      | inl (p', x') ↦ p ∙ sym p'
      | inr (p', x') ↦ p ∙ v.unique a c old f here x' (sym key ∙ (ap (λ y. y.key) x ∙ s))
    ]
    | inr (p, x) ↦ elim (at_put t.heap a c new f r) [
      | inl (p', x') ↦ v.unique b a e old x here (s ∙ (ap (λ y. y.key) (sym x') ∙ key)) ∙ sym p'
      | inr (p', x') ↦ v.unique b c e f x x' s
    ]
  ];
  counted = v.counted;
}

-- An address without an entry stands in no chain.
pub absent :
    (env : Env) (t : Table) (h : ℕ → ℕ) (a : ℕ)
    → IsValid env t h
    → t.heap a ≡ none
    → (i : ℕ) → occurs a (t.chain i) ≡ 0
absent env t h a v vacant i = elim (Bool-cases (occurs a (t.chain i) == 0)) [
  | inl z ↦ (==_iff _ 0).0 z
  | inr n ↦ let (e, q, s) = v.listed i a (λ z. ground (arith, z)) in absurd (cc)
]

occurs-put_self :
    (ch : ℕ → List ℕ) (a i : ℕ) → occurs a (put ch i (a ∷ ch i) i) ≡ suc (occurs a (ch i))
occurs-put_self ch a i = ground arith

occurs-put-other :
    (ch : ℕ → List ℕ) (a i b j : ℕ) → b ≢ a → occurs b (put ch i (a ∷ ch i) j) ≡ occurs b (ch j)
occurs-put-other ch a i b j n = ground arith

occurs-put_only :
    (ch : ℕ → List ℕ) (a i j : ℕ)
    → occurs a (put ch i (a ∷ ch i) j) ≢ 0
    → occurs a (ch j) ≡ 0
    → j ≡ i
occurs-put_only ch a i j o z = ground arith

-- A new entry with one holder.
pub add_entry-IsValid :
    (env : Env) (t : Table) (h k : ℕ → ℕ) (a : ℕ) (new : Entry) (w : World)
    → IsValid env t h
    → t.heap a ≡ none
    → ((b : ℕ) (e : Entry) → t.heap b ≡ some e → e.key ≢ new.key)
    → new.refcnt ≡ 1
    → k a ≡ 1
    → ((b : ℕ) → b ≢ a → k b ≡ h b)
    → IsValid env
        (add_entry (record (store t a new) { world = w }) a (eaclhash env t.eaclhash_size new.key))
        k
unfolding store add_entry
add_entry-IsValid env t h k a new w v vacant fresh one ka rest =
    let i₀ = eaclhash env t.eaclhash_size new.key in
    let gone : (i : ℕ) → occurs a (t.chain i) ≡ 0 = (λ i. absent env t h a v vacant i) in
    record {
      linked = λ b e q. elim (at_put t.heap a b new e q) [
        | inl (p, r) ↦ rw (p, ← r) (occurs-put_self t.chain a i₀ ∙ ap suc (gone i₀))
        | inr (p, r) ↦ occurs-put-other t.chain a i₀ b _ p ∙ v.linked b e r
      ];
      listed = λ i b o. elim (Bool-cases (b == a)) [
        | inl y ↦
            let p = (==_iff b a).0 y in
            (
              new,
              ground arith,
              sym (
                  occurs-put_only t.chain a i₀ i
                    (λ z. o (ap (λ x. occurs x (put t.chain i₀ (a ∷ t.chain i₀) i)) p ∙ z))
                    (gone i)),
            )
        | inr n ↦
            let p : b ≢ a = (λ x. ground (arith, x)) in
            let (e, q, s) = v.listed i b (λ z. o (occurs-put-other t.chain a i₀ b i p ∙ z)) in
            (e, ground arith, s)
      ];
      held = λ b e q. elim (at_put t.heap a b new e q) [
        | inl (p, r) ↦ rw (p, ← r) (one ∙ sym ka, λ z. omega (arith, ka, z))
        | inr (p, r) ↦ rw (rest b p) (v.held b e r)
      ];
      unheld = λ b q. let (n, z) = at_put-none t.heap a b new q in rest b n ∙ v.unheld b z;
      unique = λ b c e f q r s. elim (at_put t.heap a b new e q) [
        | inl (p, x) ↦ elim (at_put t.heap a c new f r) [
          | inl (p', x') ↦ p ∙ sym p'
          | inr (p', x') ↦ absurd (fresh c f x' (sym s ∙ ap (λ y. y.key) (sym x)))
        ]
        | inr (p, x) ↦ elim (at_put t.heap a c new f r) [
          | inl (p', x') ↦ absurd (fresh b e x (s ∙ ap (λ y. y.key) (sym x')))
          | inr (p', x') ↦ v.unique b c e f x x' s
        ]
      ];
      counted = λ i. elim (Bool-cases (i == i₀)) [
        | inl y ↦ let c = v.counted i₀ in ground (arith, c)
        | inr n ↦ let c = v.counted i in ground (arith, c)
      ];
    }
