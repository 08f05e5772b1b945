-- ===== src/Dnc/Names.antt =====
-- Names of the cache: their hash, and their comparison without regard to case (mvfs_dncops.c:
-- mfs_namehash, MFS_DNCHASH; mvfs_utils.c: mvfs_ansi_strcasecmp). A name is the list of its bytes
-- before the end; a char is signed, and u_long has 64 bits.
use native.Mathlib.Nat.{mod-lt}
use mvfs.Prelude.{
  inr, ap, inl, Bool-cases, refl, ==_iff, arith, ◌≢◌, ◌≡◌, All, ◌<◌, ℕ, suc, Bool, true, false,
  List, [], ◌∷◌, ◌==◌, ◌&&◌, not, if◌then◌else◌, ◌+◌, ◌-◌, ◌*◌, ◌/◌, ◌%◌, ◌^◌, ltb, leb, length,
}
use mvfs.Dnc.Types.{Fid}

-- `c & ~0x20` of an int, as a u_long.
unfoldable pub masked : ℕ → ℕ
masked c = let low = c - (c / 0x20 % 2) * 0x20 in if ltb c 0x80 then low else 2 ^ 64 - 0x100 + low

unfoldable pub hash_step : ℕ → ℕ → ℕ
hash_step hash c = (hash / 2 ^ 16 % 2 ^ 16 + hash * 2 ^ 3 % 2 ^ 19 + masked c) % 2 ^ 64

unfoldable pub hash_loop : ℕ → List ℕ → ℕ
hash_loop hash [] = hash
hash_loop hash (c ∷ nm) = hash_loop (hash_step hash c) nm

-- The hash and the length.
unfoldable pub namehash : List ℕ → ℕ × ℕ
namehash nm = (hash_loop 0 nm, length nm)

-- The chain of a name: the hash is cut to an int, and is one of 64 bits again for the sum.
unfoldable pub dnchash : Fid → ℕ → ℕ → ℕ → ℕ
dnchash fid nmhash len dnchashsize =
    let cut = nmhash % 2 ^ 32 in
    let wide = if ltb cut (2 ^ 31) then cut else 2 ^ 64 - 2 ^ 32 + cut in
    (wide + len + fid.mf_dbid + fid.mf_gen) % 2 ^ 64 % dnchashsize

-- A letter of the upper case is made one of the lower case, but not behind a byte above 0x7f.
unfoldable pub downcased : Bool → ℕ → ℕ
downcased mb_char c = if leb b'A' c && leb c b'Z' && not mb_char then c + 0x20 else c

-- Whether the difference that is returned is 0. `mb_char` is that of the last byte compared.
unfoldable pub same_from : Bool → List ℕ → List ℕ → Bool
same_from mb_char [] [] = true
same_from mb_char [] (d ∷ t) = downcased mb_char d == 0
same_from mb_char (c ∷ s) [] = downcased mb_char c == 0
same_from mb_char (c ∷ s) (d ∷ t) =
    let rest = same_from (leb 0x80 (downcased mb_char c)) s t in
    if downcased mb_char c == downcased mb_char d then rest else false

unfoldable pub strcasecmp_eq : List ℕ → List ℕ → Bool
strcasecmp_eq s1 s2 = same_from false s1 s2

-- A byte of a name.
abbrev IsByte : ℕ → Type 0
IsByte c = (0 < c) × (c < 0x100)

masked-downcased :
    (mb : Bool) (c d : ℕ)
    → IsByte c
    → IsByte d
    → downcased mb c ≡ downcased mb d
    → masked c ≡ masked d
unfolding masked downcased
masked-downcased mb c d p q e = ground arith

end-differs : (mb : Bool) (c : ℕ) → IsByte c → downcased mb c ≢ 0
unfolding downcased
end-differs mb c p e = ground arith

dnchash-lt : (fid : Fid) (h n size : ℕ) → 0 < size → dnchash fid h n size < size
unfolding dnchash
dnchash-lt fid h n size pos = mod-lt _ pos

same_from-hash :
    (mb : Bool) (s t : List ℕ) (h : ℕ)
    → All IsByte s
    → All IsByte t
    → same_from mb s t ≡ true
    → (hash_loop h s ≡ hash_loop h t) × (length s ≡ length t)
unfolding same_from hash_loop hash_step
same_from-hash mb [] [] h p q e = (refl, refl)
same_from-hash mb [] (d ∷ t) h p q e = absurd (end-differs mb d q.0 ((==_iff _ _).0 e))
same_from-hash mb (c ∷ s) [] h p q e = absurd (end-differs mb c p.0 ((==_iff _ _).0 e))
same_from-hash mb (c ∷ s) (d ∷ t) h p q e = elim (Bool-cases (downcased mb c == downcased mb d)) [
  | inl y ↦
      let m = masked-downcased mb c d p.0 q.0 ((==_iff _ _).0 y) in
      let (ih, n) =
        same_from-hash (leb 0x80 (downcased mb c)) s t (hash_step h d) p.1 q.1 (ground arith) in
      (rw m ih, ap suc n)
  | inr n ↦ absurd (cc)
]

-- Names that differ in the case of their letters only, as the comparison has it, have the same hash
-- and length, so that their entries stand on one chain, whose number is one of the table's.
pub namehash-strcasecmp :
    (s t : List ℕ) (fid : Fid) (size : ℕ)
    → All IsByte s
    → All IsByte t
    → 0 < size
    → strcasecmp_eq s t ≡ true
    → (namehash s ≡ namehash t)
      × (dnchash fid (namehash s).0 (namehash s).1 size
          ≡ dnchash fid (namehash t).0 (namehash t).1 size)
      × (dnchash fid (namehash s).0 (namehash s).1 size < size)
unfolding namehash strcasecmp_eq
namehash-strcasecmp s t fid size p q pos e =
    let (h, n) = same_from-hash false s t 0 p q e in
    (ground arith, rw (h, n) refl, dnchash-lt fid (hash_loop 0 s) (length s) size pos)
