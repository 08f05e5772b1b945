-- ===== src/Acl/Access/Decision.antt =====
-- The access check as a whole: root, objects without a list, objects with one.
use mathlib.Core.Option.{some-injective}
use mathlib.Core.Path.{subst}
use mvfs.Prelude.{
  ℕ, Bool, true, false, Option, none, some, ◌==◌, ◌≡◌, ◌↔◌, ◌⊎◌, arith, refl, Bool-cases, inl, inr,
  ◌≢◌, ==_iff, ◌∙◌, sym, ap, Option-cases,
}
use mvfs.Acl.Permission.{Cred}
use mvfs.Acl.Types.{Env, Table, Mnode, SidAcl, Entry, eacces}
use mvfs.Acl.Hash.{eaclhash_validate, key_of}
use mvfs.Acl.Hash.Invariant.{IsValid}
use mvfs.Acl.Hash.Holds.{validate_at-IsValid}
use mvfs.Acl.Hash.Mnodes.{IsTied}
use mvfs.Acl.Access.{root_uid, eaclh_at, check_handle, chkaccess_acl, chkaccess, chkaccess_modebits}
use mvfs.Acl.Access.Rights.{IsPermitted, check_eacl-IsPermitted}

-- The list of an object's own rolemap, in the table, permits the access.
pub record IsListed (u : Table) (m : Mnode) (mode uid gid vmode : ℕ) (cred : Cred) : Type 0 where
  pub handle : ℕ
  pub entry : Entry
  pub acl : SidAcl
  pub held : m.mn_aclh ≡ some handle
  pub there : u.heap handle ≡ some entry
  pub own : entry.key ≡ key_of m
  pub list : entry.eaclh ≡ some acl
  permitted : IsPermitted m.is_dir acl mode uid gid vmode cred

-- What grants an access: the root; the mode bits, for an object without a rolemap or outside a VOB; else the list alone.
pub data Grant (u : Table) (m : Mnode) (mode uid gid vmode : ℕ) (cred : Cred) : Type 0 where
  root : cred.fsuid ≡ root_uid → Grant u m mode uid gid vmode cred
  by_modebits :
      (m.is_vob ≡ false) ⊎ (m.rolemap_oid ≡ 0)
      → chkaccess_modebits mode uid gid vmode cred ≡ 0
      → Grant u m mode uid gid vmode cred
  by_list :
      m.is_vob ≡ true
      → m.rolemap_oid ≢ 0
      → IsListed u m mode uid gid vmode cred
      → Grant u m mode uid gid vmode cred

from_list :
    {u : Table} {m : Mnode} {mode uid gid vmode : ℕ} {cred : Cred}
    → Grant u m mode uid gid vmode cred
    → cred.fsuid ≢ root_uid
    → m.is_vob ≡ true
    → m.rolemap_oid ≢ 0
    → IsListed u m mode uid gid vmode cred
from_list (Grant.root e) n v z = absurd (n e)
from_list (Grant.by_modebits (inl o) e) n v z = absurd (cc)
from_list (Grant.by_modebits (inr o) e) n v z = absurd (z o)
from_list (Grant.by_list v' z' l) n v z = l

from_modebits :
    {u : Table} {m : Mnode} {mode uid gid vmode : ℕ} {cred : Cred}
    → Grant u m mode uid gid vmode cred
    → cred.fsuid ≢ root_uid
    → (m.is_vob ≡ false) ⊎ (m.rolemap_oid ≡ 0)
    → chkaccess_modebits mode uid gid vmode cred ≡ 0
from_modebits (Grant.root e) n o = absurd (n e)
from_modebits (Grant.by_modebits o e) n o' = e
from_modebits (Grant.by_list v z l) n (inl o) = absurd (cc)
from_modebits (Grant.by_list v z l) n (inr o) = absurd (z o)

at_entry : (u : Table) (a : ℕ) (g : Entry) → u.heap a ≡ some g → eaclh_at u (some a) ≡ some g.eaclh
unfolding eaclh_at
at_entry u a g e = rw e refl

denied :
    (is_dir : Bool) (mode uid gid vmode : ℕ) (cred : Cred) (o : Option SidAcl)
    → o ≡ none
    → check_handle is_dir o mode uid gid vmode cred ≢ 0
unfolding check_handle
denied is_dir mode uid gid vmode cred none e q = omega (arith, q)
denied is_dir mode uid gid vmode cred (some acl) e q = absurd (cc)

module _ (env : Env) (t : Table) (m : Mnode) (mode uid gid vmode : ℕ) (cred : Cred) where
  root_case : cred.fsuid ≡ root_uid → chkaccess env t m mode uid gid vmode cred ≡ some (t, 0)
  unfolding chkaccess chkaccess_acl
  root_case e = ground arith

  modebits_case :
      cred.fsuid ≢ root_uid
      → (m.is_vob ≡ false) ⊎ (m.rolemap_oid ≡ 0)
      → chkaccess env t m mode uid gid vmode cred
        ≡ some (t, chkaccess_modebits mode uid gid vmode cred)
  unfolding chkaccess chkaccess_acl
  modebits_case n (inl v) = ground arith
  modebits_case n (inr z) = ground arith

  list_case :
      cred.fsuid ≢ root_uid
      → m.is_vob ≡ true
      → m.rolemap_oid ≢ 0
      → (u : Table) (acl : Option SidAcl) → eaclhash_validate env m t m.mn_aclh ≡ some u
      → eaclh_at u m.mn_aclh ≡ some acl
      → chkaccess env t m mode uid gid vmode cred
        ≡ some (u, check_handle m.is_dir acl mode uid gid vmode cred)
  unfolding chkaccess chkaccess_acl
  list_case n v z u acl e f = ground arith

  Checked : (h : ℕ → ℕ) → Type 0
  Checked h =
      (u : Table) × (err : ℕ) × (chkaccess env t m mode uid gid vmode cred ≡ some (u, err))
      × IsValid env u h
      × IsTied u m
      × ((err ≡ 0) ↔ Grant u m mode uid gid vmode cred)

  modebits_Checked :
      (h : ℕ → ℕ)
      → IsValid env t h
      → IsTied t m
      → cred.fsuid ≢ root_uid
      → (m.is_vob ≡ false) ⊎ (m.rolemap_oid ≡ 0)
      → Checked h
  unfolding Checked
  modebits_Checked h v tied n o = (
    t,
    chkaccess_modebits mode uid gid vmode cred,
    modebits_case n o,
    v,
    tied,
    (λ e. Grant.by_modebits o e, λ g. from_modebits g n o),
  )

  null_Checked :
      (h : ℕ → ℕ)
      → IsValid env t h
      → IsTied t m
      → cred.fsuid ≢ root_uid
      → m.is_vob ≡ true
      → m.rolemap_oid ≢ 0
      → m.mn_aclh ≡ none
      → Checked h
  unfolding Checked eaclhash_validate eaclh_at check_handle
  null_Checked h v tied n vob z e = (
    t,
    eacces,
    list_case n vob z t none (rw e refl) (rw e refl),
    v,
    tied,
    (
      λ q. absurd (omega (arith, q)),
      λ g. absurd (let l = from_list g n vob z in let q = l.held in cc),
    ),
  )

  held_Checked :
      (h : ℕ → ℕ) (a : ℕ)
      → IsValid env t h
      → IsTied t m
      → cred.fsuid ≢ root_uid
      → m.is_vob ≡ true
      → m.rolemap_oid ≢ 0
      → m.mn_aclh ≡ some a
      → Checked h
  unfolding Checked eaclhash_validate eaclh_at check_handle IsTied
  held_Checked h a v tied n vob z e =
      let (nz, (f, here, key)) = tied a e in
      let (u, g, w, x, there, same) = validate_at-IsValid env m t h a f v here in
      (
        u,
        check_handle m.is_dir g.eaclh mode uid gid vmode cred,
        list_case n vob z u g.eaclh (ap (eaclhash_validate env m t) e ∙ w)
            (ap (eaclh_at u) e ∙ at_entry u a g there),
        x,
        λ b q. (
          nz,
          subst (λ c. (k : Entry) × (u.heap c ≡ some k) × (k.key ≡ key_of m))
              (some-injective _ _ (sym e ∙ q)) (g, there, same ∙ key),
        ),
        (
          λ q. elim (Option-cases g.eaclh) [
            | inl no_list ↦ absurd (denied m.is_dir mode uid gid vmode cred g.eaclh no_list q)
            | inr (acl, l) ↦ Grant.by_list vob z (record {
              handle = a;
              entry = g;
              acl = acl;
              held = e;
              there = there;
              own = same ∙ key;
              list = l;
              permitted =
                  (check_eacl-IsPermitted m.is_dir acl mode uid gid vmode cred).0
                    (ap (λ o. check_handle m.is_dir o mode uid gid vmode cred) (sym l) ∙ q);
            })
          ],
          λ gr.
              let l = from_list gr n vob z in
              let p = some-injective _ _ (sym e ∙ l.held) in
              let r : g ≡ l.entry = some-injective _ _ (sym there ∙ (ap u.heap p ∙ l.there)) in
              ap (λ o. check_handle m.is_dir o mode uid gid vmode cred)
                (ap (λ k. k.eaclh) r ∙ l.list)
              ∙ (check_eacl-IsPermitted m.is_dir l.acl mode uid gid vmode cred).1 l.permitted,
        ),
      )

  -- If the table is valid and the handle of the mnode, if any, is tied to an entry of its own rolemap, then the check ends without a fault, keeps both, and
  -- grants just what the root, the mode bits (for objects without a rolemap or outside a VOB) or, for all others, the list of their own rolemap grants;
  -- with a rolemap but without a list it denies.
  pub chkaccess-Grant :
      (h : ℕ → ℕ)
      → IsValid env t h
      → IsTied t m
      → (u : Table) × (err : ℕ) × (chkaccess env t m mode uid gid vmode cred ≡ some (u, err))
        × IsValid env u h
        × IsTied u m
        × ((err ≡ 0) ↔ Grant u m mode uid gid vmode cred)
  unfolding Checked
  chkaccess-Grant h v tied = elim (Bool-cases (cred.fsuid == root_uid)) [
    | inl y ↦
        let e = (==_iff _ root_uid).0 y in
        (t, 0, root_case e, v, tied, (λ _. Grant.root e, λ _. refl))
    | inr n ↦
        let nr : cred.fsuid ≢ root_uid = (λ z. ground (arith, z)) in
        elim (Bool-cases m.is_vob) [
          | inr nv ↦ modebits_Checked h v tied nr (inl nv)
          | inl vob ↦ elim (Bool-cases (m.rolemap_oid == 0)) [
            | inl z ↦ modebits_Checked h v tied nr (inr ((==_iff _ 0).0 z))
            | inr nz ↦
                let role : m.rolemap_oid ≢ 0 = (λ z. ground (arith, z)) in
                elim (Option-cases m.mn_aclh) [
                  | inl e ↦ null_Checked h v tied nr vob role e
                  | inr (a, e) ↦ held_Checked h a v tied nr vob role e
                ]
          ]
        ]
  ]
