-- ===== src/Acl/Hash/Release.antt =====
-- The release of an entry takes one hold away.
use mvfs.Acl.Hash.Holds.{one_less}
use mvfs.Prelude.{
  Option-cases, ℕ, none, some, ◌==◌, ◌≡◌, ◌≢◌, arith, refl, inl, inr, Bool-cases, sym, ap, ◌∙◌, ◌+◌,
  ◌-◌, ◌%◌, ◌^◌, ◌<◌, ==_iff,
}
use mvfs.Acl.Types.{Env, Table, Entry, eaclhash}
use mvfs.Acl.Fetch.{free_eaclh}
use mvfs.Acl.Hash.{remove_entry, free_entry, store, eaclhash_release, drop_hold}
use mvfs.Acl.Hash.Invariant.{at_put, IsValid, store-IsValid, put_same, put_other}
use mvfs.Acl.Hash.Removal.{at_gone, remove_entry-IsValid}

fewer : Entry → Entry
fewer e = record e { refcnt = (e.refcnt + 2 ^ 32 - 1) % 2 ^ 32 }

drop-last :
    (env : Env) (t : Table) (a : ℕ) (e : Entry)
    → e.refcnt ≡ 1
    → drop_hold env t a e
      ≡ free_entry
          (remove_entry (store t a (fewer e)) a (eaclhash env t.eaclhash_size e.key))
          a
          (fewer e)
unfolding drop_hold fewer
drop-last env t a e one = ground arith

drop-some :
    (env : Env) (t : Table) (a : ℕ) (e : Entry)
    → e.refcnt ≢ 1
    → e.refcnt ≢ 0
    → e.refcnt < 2 ^ 32
    → drop_hold env t a e ≡ record (store t a (fewer e)) { world = t.world }
unfolding drop_hold store fewer
drop-some env t a e two pos lt = ground arith

removed :
    (env : Env) (t : Table) (a : ℕ) (e : Entry) (i : ℕ)
    → (free_entry (remove_entry (store t a e) a i) a e).heap a ≡ none
unfolding free_entry
removed env t a e i = put_same (remove_entry (store t a e) a i).heap a none

removed_world :
    (env : Env) (t : Table) (a : ℕ) (e : Entry) (i : ℕ)
    → (free_entry (remove_entry (store t a (fewer e)) a i) a (fewer e)).world
      ≡ free_eaclh e.eaclh t.world
unfolding free_entry remove_entry store fewer
removed_world env t a e i = refl

removed_origin :
    (t : Table) (a b : ℕ) (e g : Entry) (i : ℕ)
    → (free_entry (remove_entry (store t a e) a i) a e).heap b ≡ some g
    → t.heap b ≡ some g
unfolding free_entry remove_entry store
removed_origin t a b e g i q = (at_gone t.heap a b (some e) g q).1

stored_origin :
    (t : Table) (a b : ℕ) (e new g : Entry)
    → t.heap a ≡ some e
    → new.key ≡ e.key
    → (store t a new).heap b ≡ some g
    → (f : Entry) × (t.heap b ≡ some f) × (g.key ≡ f.key)
unfolding store
stored_origin t a b e new g here k q = elim (at_put t.heap a b new g q) [
  | inl (p, r) ↦ (e, ap t.heap p ∙ here, ap (λ x. x.key) (sym r) ∙ k)
  | inr (n, r) ↦ (g, r, refl)
]

-- The entries after a change were there before, with the same keys.
abbrev pub Origin : Table → Table → Type 0
Origin t u =
    (b : ℕ) (g : Entry) → u.heap b ≡ some g → (f : Entry) × (t.heap b ≡ some f) × (g.key ≡ f.key)

-- A release of an entry held h times, within 32 bits, ends without a fault and takes one hold away. With the last
-- hold it removes the entry and frees its list, else it frees nothing; the other entries stay, with their keys.
pub eaclhash_release-IsValid :
    (env : Env) (t : Table) (h : ℕ → ℕ) (a : ℕ)
    → IsValid env t h
    → h a ≢ 0
    → h a < 2 ^ 32
    → (u : Table) × (e : Entry) × (eaclhash_release env t (some a) ≡ some u)
      × IsValid env u (one_less h a)
      × (t.heap a ≡ some e)
      × (h a ≡ 1 → (u.heap a ≡ none) × (u.world ≡ free_eaclh e.eaclh t.world))
      × (h a ≢ 1 → u.world ≡ t.world)
      × Origin t u
unfolding eaclhash_release fewer
eaclhash_release-IsValid env t h a v pos lt = elim (Option-cases (t.heap a)) [
  | inl n ↦ absurd (pos (v.unheld a n))
  | inr (e, here) ↦
      let (n, p) = v.held a e here in
      elim (Bool-cases (e.refcnt == 1)) [
        | inl y ↦
            let one = (==_iff _ 1).0 y in
            let i = eaclhash env t.eaclhash_size e.key in
            (
              free_entry (remove_entry (store t a (fewer e)) a i) a (fewer e),
              e,
              rw here (ap (λ x. some x) (drop-last env t a e one)),
              remove_entry-IsValid env t h (one_less h a) a e (fewer e) v here
                  (put_same h a (h a - 1) ∙ omega (arith, n, one))
                  (λ b m. put_other h a (h a - 1) b m),
              here,
              λ _. (removed env t a (fewer e) i, removed_world env t a e i),
              λ two. absurd (two (sym n ∙ one)),
              λ b g q. (g, removed_origin t a b (fewer e) g i q, refl),
            )
        | inr m ↦
            let two : e.refcnt ≢ 1 = (λ z. ground (arith, z)) in
            (
              record (store t a (fewer e)) { world = t.world },
              e,
              rw here (
                  ap (λ x. some x)
                    (drop-some env t a e two (omega (arith, n, pos)) (omega (arith, n, lt)))),
              store-IsValid env t h (one_less h a) a e (fewer e) t.world v here refl
                  (omega (arith, n, pos, lt, put_same h a (h a - 1)))
                  (λ z. two (omega (arith, n, pos, z, put_same h a (h a - 1))))
                  (λ b r. put_other h a (h a - 1) b r),
              here,
              λ one. absurd (two (n ∙ one)),
              λ _. refl,
              λ b g q. stored_origin t a b e (fewer e) g here refl q,
            )
      ]
]
