-- ===== src/Dnc/History.antt =====
-- Names with the suffix of the history mode (mvfs_utils.c: mfs_hmname, mfs_hmappend). The suffix is
-- that of the mount of the view root, and [] without one.
use mvfs.Prelude.{
  ℕ, false, List, [], ◌∷◌, ◌++◌, Option, none, some, ◌==◌, ◌||◌, ◌≡◌, ◌≢◌, refl, ap, arith,
  if◌then◌else◌, ◌-◌, ltb, length, length-append, take, drop,
}
use mvfs.Dnc.Find.{bytes_eq, bytes_eq_refl}

abbrev pub dot : List ℕ
dot = b'.' ∷ []

-- The name without the suffix.
unfoldable pub hmname : List ℕ → List ℕ → Option (List ℕ)
hmname suffix nm =
    let strplen = length nm - length suffix in
    if length suffix == 0 || ltb (length nm) (length suffix)
    then none
    else if bytes_eq (drop strplen nm) suffix
    then some (if strplen == 0 then dot else take strplen nm)
    else none

unfoldable pub hmappend : List ℕ → List ℕ → List ℕ
hmappend suffix nm = nm ++ suffix

nonempty : (l : List ℕ) → l ≢ [] → length l ≢ 0
nonempty [] ne = absurd (ne refl)
nonempty (c ∷ l) ne = λ z. absurd (omega (arith, z))

drop-append : (nm suffix : List ℕ) → drop (length nm) (nm ++ suffix) ≡ suffix
drop-append [] suffix = refl
drop-append (c ∷ nm) suffix = drop-append nm suffix

take-append : (nm suffix : List ℕ) → take (length nm) (nm ++ suffix) ≡ nm
take-append [] suffix = refl
take-append (c ∷ nm) suffix = ap (◌∷◌ c) (take-append nm suffix)

-- With a suffix, a name that is not empty comes back from its form in the history mode, and the form of
-- the empty name is that of the name ".".
pub hmname-hmappend :
    (suffix nm : List ℕ)
    → suffix ≢ []
    → hmname suffix (hmappend suffix nm) ≡ some (if length nm == 0 then dot else nm)
unfolding hmname hmappend
hmname-hmappend suffix nm ne =
    let e : length (nm ++ suffix) - length suffix ≡ length nm =
      omega (arith, length-append nm suffix) in
    let g : (length suffix == 0 || ltb (length (nm ++ suffix)) (length suffix)) ≡ false =
      ground (arith, length-append nm suffix, nonempty suffix ne) in
    rw (e, g, drop-append nm suffix, bytes_eq_refl suffix, take-append nm suffix) refl
