-- ===== src/Acl/Sweep/Empty.antt =====
-- When every mnode has let its list go, nothing is left to free.
use mvfs.Prelude.{
  ℕ, zero, suc, List, [], ◌∷◌, none, some, ◌==◌, ◌≡◌, arith, refl, inl, inr, Bool-cases, ap, ◌∙◌,
  ◌+◌, ◌%◌, ◌^◌, ==_iff, Option-cases, length,
}
use mvfs.Acl.Types.{Env, Table}
use mvfs.Acl.Hash.Invariant.{occurs, IsValid}
use mvfs.Acl.Sweep.{free_chain, free_slots, acl_free}

nothing_occurs : (l : List ℕ) → ((a : ℕ) → occurs a l ≡ 0) → l ≡ []
nothing_occurs [] h = refl
nothing_occurs (a ∷ l) h = absurd (let z = h a in ground arith)

module _ (env : Env) (t : Table) (h : ℕ → ℕ) (v : IsValid env t h) (free : (a : ℕ) → h a ≡ 0) where
  heap-none : (a : ℕ) → t.heap a ≡ none
  heap-none a = elim (Option-cases (t.heap a)) [
    | inl n ↦ n
    | inr (e, q) ↦ absurd ((v.held a e q).1 (free a))
  ]

  chain-empty : (i : ℕ) → t.chain i ≡ []
  chain-empty i = nothing_occurs (t.chain i) (λ a. elim (Bool-cases (occurs a (t.chain i) == 0)) [
    | inl z ↦ (==_iff _ 0).0 z
    | inr n ↦
        let (e, q, s) = v.listed i a (λ z. ground (arith, z)) in let w = heap-none a in absurd (cc)
  ])

  free_slots-same : (n i : ℕ) → free_slots n i t ≡ some t
  unfolding free_slots free_chain
  free_slots-same zero i = refl
  free_slots-same (suc n) i = rw (chain-empty i) (free_slots-same n (i + 1))

  -- If the table is valid and no entry is held, then its memory has no entry, its chains are empty and counted so, and the
  -- walk at the end of the file system finds nothing to free.
  acl_free-same :
      (acl_free t ≡ some t)
      × ((a : ℕ) → t.heap a ≡ none)
      × ((i : ℕ) → (t.chain i ≡ []) × (t.entry_cnt i ≡ 0))
  unfolding acl_free
  acl_free-same = (
    free_slots-same t.eaclhash_size 0,
    heap-none,
    λ i. (chain-empty i, v.counted i ∙ ap (λ l. length l % 2 ^ 32) (chain-empty i)),
  )
