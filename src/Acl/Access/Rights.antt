-- ===== src/Acl/Access/Rights.antt =====
-- What the list of an object grants, right by right.
use mvfs.Prelude.{
  ==_iff, ℕ, Bool, true, false, some, ◌==◌, ◌&&◌, ◌||◌, not, ◌≡◌, ◌↔◌, arith, refl, any, testbit,
  testbit-bit_or, testbit-two_pow, testbit-zero, Bool-cases, inl, inr,
}
use mvfs.Acl.Permission.{Cred, check_permission_creds}
use mvfs.Acl.Permission.Grants.{concerns, allows, check_permission_creds-granted}
use mvfs.Acl.Types.{SidAcl}
use mvfs.Acl.Access.{
  element_rights_lookup_dir, element_rights_write_dir, element_rights_read_info, vread, vwrite,
  vexec, flag, add_if, dir_perms, file_perms, may_execute, answer_of, check_eacl,
}

-- Some entry that applies allows the right with the number of its digit.
abbrev pub permits : SidAcl → Cred → ℕ → ℕ → ℕ → Bool
permits acl cred owner_uid owner_gid i =
    any (allows cred (some owner_uid) (some owner_gid) i) acl.ents

testbit-add_if :
    (b : Bool) (perms right i : ℕ)
    → testbit (add_if b perms right) i ≡ (testbit perms i || (b && testbit right i))
unfolding add_if
testbit-add_if true perms right i = testbit-bit_or i perms right
testbit-add_if false perms right i = ground arith

dir_bits :
    (r w x : Bool) (i : ℕ)
    → testbit
        (add_if x
          (add_if w (add_if r 0 element_rights_read_info) element_rights_write_dir)
          element_rights_lookup_dir)
        i
      ≡ (((r && (i == 14)) || (w && (i == 6))) || (x && (i == 7)))
dir_bits r w x i = ground (
  arith,
  testbit-add_if x (add_if w (add_if r 0 element_rights_read_info) element_rights_write_dir)
      element_rights_lookup_dir i,
  testbit-add_if w (add_if r 0 element_rights_read_info) element_rights_write_dir i,
  testbit-add_if r 0 element_rights_read_info i,
  testbit-two_pow 14 i,
  testbit-two_pow 6 i,
  testbit-two_pow 7 i,
  testbit-zero i,
)

file_bits :
    (r x : Bool) (i : ℕ)
    → testbit (add_if x (add_if r 0 element_rights_read_info) element_rights_read_info) i
      ≡ ((r || x) && (i == 14))
file_bits r x i = ground (
  arith,
  testbit-add_if x (add_if r 0 element_rights_read_info) element_rights_read_info i,
  testbit-add_if r 0 element_rights_read_info i,
  testbit-two_pow 14 i,
  testbit-zero i,
)

dir_digits :
    (mode i : ℕ)
    → testbit (dir_perms mode) i ≡ (
        ((flag mode vread && (i == 14)) || (flag mode vwrite && (i == 6)))
        || (flag mode vexec && (i == 7)))
unfolding dir_perms
dir_digits mode i = dir_bits (flag mode vread) (flag mode vwrite) (flag mode vexec) i

file_digits :
    (mode i : ℕ) → testbit (file_perms mode) i ≡ ((flag mode vread || flag mode vexec) && (i == 14))
unfolding file_perms
file_digits mode i = file_bits (flag mode vread) (flag mode vexec) i

-- The answer to a check of permissions.
granted :
    (acl : SidAcl) (perms : ℕ) (cred : Cred) (uid gid : ℕ)
    → (answer_of (check_permission_creds acl.ents perms cred (some uid) (some gid)) ≡ 0) ↔ (
        (any (concerns cred (some uid) (some gid)) acl.ents ≡ true)
        × ((i : ℕ) → testbit perms i ≡ true → permits acl cred uid gid i ≡ true))
unfolding answer_of
granted acl perms cred uid gid =
    let (s, g) = check_permission_creds-granted acl.ents perms cred (some uid) (some gid) in
    (λ e. g.0 (ground (arith, s)), λ p. let t = g.1 p in ground (arith, s))

-- The rights that a mode wants: the read right of files and directories, the write and the look-up
-- right of directories; the execution of a file wants its mode bits and the read right.
pub record IsPermitted (is_dir : Bool) (acl : SidAcl) (mode uid gid vmode : ℕ) (cred : Cred)
    : Type 0 where
  concerned : any (concerns cred (some uid) (some gid)) acl.ents ≡ true
  pub read : flag mode vread ≡ true → permits acl cred uid gid 14 ≡ true
  pub write : flag mode vwrite ≡ true → (is_dir ≡ true) × (permits acl cred uid gid 6 ≡ true)
  pub search : flag mode vexec ≡ true → is_dir ≡ true → permits acl cred uid gid 7 ≡ true
  exec :
      flag mode vexec ≡ true
      → is_dir ≡ false
      → (may_execute uid vmode cred ≡ true) × (permits acl cred uid gid 14 ≡ true)

module _ (acl : SidAcl) (mode uid gid vmode : ℕ) (cred : Cred) where
  dir_granted :
      (any (concerns cred (some uid) (some gid)) acl.ents ≡ true)
        × ((i : ℕ) → testbit (dir_perms mode) i ≡ true → permits acl cred uid gid i ≡ true)
      → IsPermitted true acl mode uid gid vmode cred
  dir_granted (c, p) = record {
    concerned = c;
    read = λ f. p 14 (ground (arith, dir_digits mode 14));
    write = λ f. (refl, p 6 (ground (arith, dir_digits mode 6)));
    search = λ f d. p 7 (ground (arith, dir_digits mode 7));
    exec = λ f d. absurd (cc);
  }

  granted_dir :
      IsPermitted true acl mode uid gid vmode cred
      → (i : ℕ) → testbit (dir_perms mode) i ≡ true
      → permits acl cred uid gid i ≡ true
  granted_dir p i b =
      let d = dir_digits mode i in
      elim (Bool-cases (i == 14)) [
        | inl x ↦ rw ((==_iff i 14).0 x) (p.read (ground arith))
        | inr nx ↦ elim (Bool-cases (i == 6)) [
          | inl y ↦ rw ((==_iff i 6).0 y) (p.write (ground arith)).1
          | inr ny ↦ elim (Bool-cases (i == 7)) [
            | inl z ↦ rw ((==_iff i 7).0 z) (p.search (ground arith) refl)
            | inr nz ↦ absurd (ground arith)
          ]
        ]
      ]

  file_granted :
      flag mode vwrite ≡ false
      → (flag mode vexec && not (may_execute uid vmode cred)) ≡ false
      → (any (concerns cred (some uid) (some gid)) acl.ents ≡ true)
        × ((i : ℕ) → testbit (file_perms mode) i ≡ true → permits acl cred uid gid i ≡ true)
      → IsPermitted false acl mode uid gid vmode cred
  file_granted w x (c, p) = record {
    concerned = c;
    read = λ f. p 14 (ground (arith, file_digits mode 14));
    write = λ f. absurd (cc);
    search = λ f d. absurd (cc);
    exec = λ f d. (ground arith, p 14 (ground (arith, file_digits mode 14)));
  }

  granted_file :
      IsPermitted false acl mode uid gid vmode cred
      → (i : ℕ) → testbit (file_perms mode) i ≡ true
      → permits acl cred uid gid i ≡ true
  granted_file p i b =
      let d = file_digits mode i in
      elim (Bool-cases (i == 14)) [
        | inl x ↦ elim (Bool-cases (flag mode vread)) [
          | inl r ↦ rw ((==_iff i 14).0 x) (p.read r)
          | inr nr ↦ rw ((==_iff i 14).0 x) (p.exec (ground arith) refl).1
        ]
        | inr nx ↦ absurd (ground arith)
      ]

-- For every object that has a list, every mode and all credentials, the list grants the access just when some entry
-- applies and the list and, for the execution of a file, the mode bits permit each right that the mode wants; writing a file is never granted.
pub check_eacl-IsPermitted :
    (is_dir : Bool) (acl : SidAcl) (mode uid gid vmode : ℕ) (cred : Cred)
    → (check_eacl is_dir acl mode uid gid vmode cred ≡ 0)
      ↔ IsPermitted is_dir acl mode uid gid vmode cred
unfolding check_eacl
check_eacl-IsPermitted true acl mode uid gid vmode cred =
    let (f, b) = granted acl (dir_perms mode) cred uid gid in
    (
      λ e. dir_granted acl mode uid gid vmode cred (f e),
      λ p. b (p.concerned, granted_dir acl mode uid gid vmode cred p),
    )
check_eacl-IsPermitted false acl mode uid gid vmode cred =
    let (f, b) = granted acl (file_perms mode) cred uid gid in
    elim (Bool-cases (flag mode vwrite)) [
      | inl w ↦ (λ e. absurd (ground arith), λ p. absurd (let q = (p.write w).0 in cc))
      | inr nw ↦ elim (Bool-cases (flag mode vexec && not (may_execute uid vmode cred))) [
        | inl x ↦ (
          λ e. absurd (ground arith),
          λ p. absurd (let q = (p.exec (ground arith) refl).0 in ground arith),
        )
        | inr nx ↦ (
          λ e. file_granted acl mode uid gid vmode cred nw nx (f (ground arith)),
          λ p. let t = b (p.concerned, granted_file acl mode uid gid vmode cred p) in ground arith,
        )
      ]
    ]
