-- ===== src/Acl/Access/Modebits.antt =====
-- The check of the mode bits looks at one class only.
use Prim.Native.Nat.{bit_and}
use mvfs.Prelude.{
  ap, ℕ, suc, true, List, [], ◌∷◌, ◌==◌, ◌||◌, if◌then◌else◌, ◌/◌, ◌+◌, ◌≡◌, ◌↔◌, arith, refl, any,
  testbit, testbit-eighth, bit_and_comm, bit_and-eq_iff, ==_iff, ◌∙◌, sym,
}
use mvfs.Acl.Permission.{Cred, groupmember, groupmember_loop}
use mvfs.Acl.Access.{mode_class, chkaccess_modebits}

-- By how many digits the bits of the class that counts lie below those of the owner.
abbrev pub class_shift : ℕ → ℕ → Cred → ℕ
class_shift vuid vgid cred =
    if cred.fsuid == vuid
    then 0
    else if (cred.fsgid == vgid) || any (λ g. vgid == g) cred.groups
    then 3
    else 6

groupmember_loop-any :
    (vgid : ℕ) (groups : List ℕ) → groupmember_loop vgid groups ≡ any (λ g. vgid == g) groups
unfolding groupmember_loop
groupmember_loop-any vgid [] = refl
groupmember_loop-any vgid (g ∷ gs) = ground (arith, groupmember_loop-any vgid gs)

digit_at : (a i j : ℕ) → i ≡ j → testbit a i ≡ testbit a j
digit_at a i j e = ap (testbit a) e

testbit_three : (a i : ℕ) → testbit (a / 8) i ≡ testbit a (3 + i)
testbit_three a i = testbit-eighth a i ∙ digit_at a (suc (suc (suc i))) (3 + i) (omega arith)

mode_class-digits :
    (mode vuid vgid : ℕ) (cred : Cred) (i : ℕ)
    → testbit (mode_class mode vuid vgid cred) i ≡ testbit mode (class_shift vuid vgid cred + i)
unfolding mode_class groupmember
mode_class-digits mode vuid vgid cred i =
    let three = testbit_three mode i in
    let six : testbit (mode / 8 / 8) i ≡ testbit mode (6 + i) =
      testbit_three (mode / 8) i
      ∙ (testbit_three mode (3 + i) ∙ digit_at mode (3 + (3 + i)) (6 + i) (omega arith)) in
    let none_ : testbit mode (0 + i) ≡ testbit mode i = digit_at mode (0 + i) i (omega arith) in
    ground (arith, three, six, none_, groupmember_loop-any vgid cred.groups)

-- For any mode, owner, group, mode bits and credentials, the access is granted just when the mode bits have each bit that
-- the mode asks for, shifted to one class: the owner's for the owner, else the group's for those of the group, else
-- the public one.
pub chkaccess_modebits-class :
    (mode vuid vgid vmode : ℕ) (cred : Cred)
    → (chkaccess_modebits mode vuid vgid vmode cred ≡ 0)
      ↔ ((i : ℕ) → testbit mode (class_shift vuid vgid cred + i) ≡ true → testbit vmode i ≡ true)
unfolding chkaccess_modebits
chkaccess_modebits-class mode vuid vgid vmode cred =
    let w : ℕ = mode_class mode vuid vgid cred in
    let c = bit_and-eq_iff w vmode in
    let d = mode_class-digits mode vuid vgid cred in
    (
      λ e i b. c.0 (bit_and_comm w vmode ∙ (==_iff _ w).0 (ground arith)) i (d i ∙ b),
      λ h.
          let t =
            (==_iff (bit_and vmode w) w).1
              (bit_and_comm vmode w ∙ c.1 (λ i b. h i (sym (d i) ∙ b))) in
          ground arith,
    )
