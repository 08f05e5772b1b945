-- ===== src/Acl/Permission/Grants.antt =====
-- A permission is granted by what the entries that apply allow together.
use Prim.Native.Nat.{bit_or}
use mvfs.Prelude.{
  any, ◌&&◌, ℕ, Bool, true, false, List, [], ◌∷◌, Option, ◌≡◌, ◌↔◌, inl, inr, arith, testbit,
  testbit-bit_or, testbit-zero, bit_and-eq_iff, Bool-cases, ◌||◌, ==_iff, refl, sym, ◌∙◌,
}
use mvfs.Acl.Permission.{
  tbs_st_ok, CookedEnt, Cred, applies, add_and_check_perms, check_loop, check_permission_creds,
}

-- Whether an entry applies, and whether it applies and allows permission i.
abbrev pub concerns : Cred → Option ℕ → Option ℕ → CookedEnt → Bool
concerns creds usid gsid ent = applies ent.kind ent.principal_id creds usid gsid

abbrev pub allows : Cred → Option ℕ → Option ℕ → ℕ → CookedEnt → Bool
allows creds usid gsid i ent = concerns creds usid gsid ent && testbit ent.perm_set i

module _ (creds : Cred) (usid gsid : Option ℕ) where
  any-allows :
      (ents : List CookedEnt) (i : ℕ)
      → any (concerns creds usid gsid) ents ≡ false
      → any (allows creds usid gsid i) ents ≡ false
  any-allows [] i h = refl
  any-allows (ent ∷ ents) i h = ground (arith, any-allows ents i)

  -- What the permissions gathered so far and the entries to come allow together.
  abbrev Covered : List CookedEnt → ℕ → ℕ → Type 0
  Covered ents requested allowed =
      (i : ℕ)
      → testbit requested i ≡ true
      → (testbit allowed i || any (allows creds usid gsid i) ents) ≡ true

  step-granted :
      (requested current allowed : ℕ)
      → (add_and_check_perms requested current allowed).0 ≡ true
      → (i : ℕ) → testbit requested i ≡ true
      → (testbit allowed i || testbit current i) ≡ true
  unfolding add_and_check_perms
  step-granted requested current allowed h i b =
      sym (testbit-bit_or i allowed current)
      ∙ (bit_and-eq_iff requested (bit_or allowed current)).0 ((==_iff _ requested).0 h) i b

  granted-step :
      (requested current allowed : ℕ)
      → ((i : ℕ) → testbit requested i ≡ true → (testbit allowed i || testbit current i) ≡ true)
      → (add_and_check_perms requested current allowed).0 ≡ true
  unfolding add_and_check_perms
  granted-step requested current allowed h = (==_iff _ requested).1 (
      (bit_and-eq_iff requested (bit_or allowed current)).1
        (λ i b. testbit-bit_or i allowed current ∙ h i b))

  step-total :
      (requested current allowed : ℕ)
      → (add_and_check_perms requested current allowed).1 ≡ bit_or allowed current
  unfolding add_and_check_perms
  step-total requested current allowed = refl

  check_loop-Covered :
      (ents : List CookedEnt) (requested allowed : ℕ)
      → check_loop ents requested creds usid gsid allowed ≡ true
      → (any (concerns creds usid gsid) ents ≡ true) × Covered ents requested allowed
  unfolding check_loop
  check_loop-Covered [] requested allowed h = absurd (cc)
  check_loop-Covered (ent ∷ ents) requested allowed h =
      elim (Bool-cases (concerns creds usid gsid ent)) [
        | inl y ↦ elim (Bool-cases (add_and_check_perms requested ent.perm_set allowed).0) [
          | inl g ↦
              let s = step-granted requested ent.perm_set allowed g in
              (ground arith, λ i b. ground (arith, s i b))
          | inr g ↦
              let ih =
                check_loop-Covered ents requested (bit_or allowed ent.perm_set)
                  (ground (arith, step-total requested ent.perm_set allowed)) in
              (ground arith, λ i b. ground (arith, ih.1 i b, testbit-bit_or i allowed ent.perm_set))
        ]
        | inr n ↦
            let ih = check_loop-Covered ents requested allowed (ground arith) in
            (ground (arith, ih.0), λ i b. ground (arith, ih.1 i b))
      ]

  Covered-check_loop :
      (ents : List CookedEnt) (requested allowed : ℕ)
      → any (concerns creds usid gsid) ents ≡ true
      → Covered ents requested allowed
      → check_loop ents requested creds usid gsid allowed ≡ true
  unfolding check_loop
  Covered-check_loop [] requested allowed h c = absurd (cc)
  Covered-check_loop (ent ∷ ents) requested allowed h c =
      elim (Bool-cases (concerns creds usid gsid ent)) [
        | inl y ↦ elim (Bool-cases (add_and_check_perms requested ent.perm_set allowed).0) [
          | inl g ↦ ground arith
          | inr g ↦ elim (Bool-cases (any (concerns creds usid gsid) ents)) [
            | inl later ↦
                let ih =
                  Covered-check_loop ents requested (bit_or allowed ent.perm_set) later
                    (λ i b. ground (arith, c i b, testbit-bit_or i allowed ent.perm_set)) in
                ground (arith, step-total requested ent.perm_set allowed)
            | inr never ↦
                let s =
                  granted-step requested ent.perm_set allowed
                    (λ i b. ground (arith, c i b, any-allows ents i never)) in
                ground arith
          ]
        ]
        | inr n ↦
            let ih =
              Covered-check_loop ents requested allowed (ground arith)
                (λ i b. ground (arith, c i b)) in
            ground arith
      ]

-- For any list, mask and credentials, the status is the good one, and the permission is granted just when some
-- entry applies to the credentials and each requested permission is allowed by some entry that applies.
pub check_permission_creds-granted :
    (ents : List CookedEnt) (requested : ℕ) (creds : Cred) (usid gsid : Option ℕ)
    → ((check_permission_creds ents requested creds usid gsid).0 ≡ tbs_st_ok)
      × (((check_permission_creds ents requested creds usid gsid).1 ≡ true) ↔ (
          (any (concerns creds usid gsid) ents ≡ true)
          × ((i : ℕ) → testbit requested i ≡ true → any (allows creds usid gsid i) ents ≡ true)))
unfolding check_permission_creds
check_permission_creds-granted ents requested creds usid gsid = (
  refl,
  (
    λ h.
        let c = check_loop-Covered creds usid gsid ents requested 0 h in
        (c.0, λ i b. ground (arith, c.1 i b, testbit-zero i)),
    λ p.
        Covered-check_loop creds usid gsid ents requested 0 p.0
          (λ i b. ground (arith, p.1 i b, testbit-zero i)),
  ),
)
