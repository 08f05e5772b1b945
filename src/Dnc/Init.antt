-- ===== src/Dnc/Init.antt =====
-- The lists of a new cache (mvfs_dncops.c: mvfs_dnclist_init), whose entries have been cleared.
use mvfs.Prelude.{
  ◌∙◌, leb, ℕ, zero, suc, Bool, true, false, List, [], ◌∷◌, none, ◌==◌, ◌&&◌, ◌≡◌, ◌≢◌, ◌+◌, refl,
  sym, arith, if◌then◌else◌, ltb, Bool-cases, ==_iff, inl, inr, count, total,
}
use mvfs.Dnc.Types.{Entry, Cache, Bhandle, Lru, lru_eq, no_flags, null_fid}
use mvfs.Dnc.Invariant.{IsLinked, uses}
use mvfs.Dnc.Invariant.Keys.{IsKeyed}

abbrev head_of : ℕ → ℕ → ℕ → Lru
head_of dirmax enoent_start i =
    if ltb i dirmax then Lru.dirlru else if ltb i enoent_start then Lru.reglru else Lru.noentlru

-- Zeroed memory.
abbrev zero_bhandle : Bhandle
zero_bhandle = record { build_session = 0; target_id = 0 }

abbrev pub blank : Lru → Entry
blank l = record {
  addtime = 0;
  lruhead = l;
  in_trans = false;
  nullbh = false;
  invalid = false;
  bhx = 0;
  flags = no_flags;
  dvw = 0;
  vfsp = 0;
  dfid = null_fid;
  dncgen = 0;
  bh = zero_bhandle ∷ zero_bhandle ∷ zero_bhandle ∷ [];
  len = 0;
  nm_p = [];
  vvw = 0;
  vfid = null_fid;
  vevtime = record { tv_sec = 0; tv_usec = 0 };
  cred = 0;
  dnc_hash = none;
}

-- Each entry goes to the front of the list of its region.
unfoldable add_free : ℕ → ℕ → ℕ → Lru → List ℕ
add_free dirmax enoent_start zero l = []
add_free dirmax enoent_start (suc i) l =
    if lru_eq (head_of dirmax enoent_start i) l
    then i ∷ add_free dirmax enoent_start i l
    else add_free dirmax enoent_start i l

unfoldable pub dnclist_init : ℕ → ℕ → ℕ → Cache
unfolding add_free
dnclist_init dirmax regmax noentmax = record {
  mfs_dnc = λ i. blank (head_of dirmax (dirmax + regmax) i);
  mfs_dnchash = λ h. [];
  lru = add_free dirmax (dirmax + regmax) (dirmax + regmax + noentmax);
  mfs_dncmax = dirmax + regmax + noentmax;
  mvfs_dncdirmax = dirmax;
  mfs_dnc_enoent_start = dirmax + regmax;
  mvfs_dnc_noent_other = 0;
  view_holds = λ v. 0;
  cred_holds = λ v. 0;
}

not-below : (d : ℕ) → ltb d 0 ≡ false
not-below d = ground arith

if_same : (b : Bool) → ◌≡◌ {A = ℕ} 0 (if b && false then 1 else 0)
if_same true = refl
if_same false = refl

count-add_free :
    (dirmax start n : ℕ) (l : Lru) (d : ℕ)
    → count d (add_free dirmax start n l)
      ≡ (if ltb d n && lru_eq (head_of dirmax start d) l then 1 else 0)
unfolding add_free
count-add_free dirmax start zero l d = rw (not-below d) refl
count-add_free dirmax start (suc n) l d = elim (Bool-cases (n == d)) [
  | inl y ↦
      let e = (==_iff n d).0 y in
      elim (Bool-cases (lru_eq (head_of dirmax start n) l)) [
        | inl t ↦ rw (t, ← e) (ground (arith, t, count-add_free dirmax start n l n))
        | inr f ↦ rw (f, ← e) (ground (arith, f, count-add_free dirmax start n l n))
      ]
  | inr m ↦ elim (Bool-cases (lru_eq (head_of dirmax start n) l)) [
    | inl t ↦ rw t (ground (arith, count-add_free dirmax start n l d))
    | inr f ↦ rw f (ground (arith, count-add_free dirmax start n l d))
  ]
]

zeros : (v n : ℕ) → v ≢ 0 → total (λ d. uses v 0 + uses v 0) n ≡ 0
zeros v zero ne = refl
zeros v (suc n) ne = ground (arith, ne, zeros v n ne)

zeros_cred : (v n : ℕ) → v ≢ 0 → total (λ d. uses v 0) n ≡ 0
zeros_cred v zero ne = refl
zeros_cred v (suc n) ne = ground (arith, ne, zeros_cred v n ne)

-- The entries of a list are the indices from `first` up to `last`, each once.
abbrev pub IsRange : List ℕ → ℕ → ℕ → Type 0
IsRange l first last = (d : ℕ) → count d l ≡ (if leb first d && ltb d last then 1 else 0)

module _ (dirmax regmax noentmax : ℕ) where
  regions :
      IsRange ((dnclist_init dirmax regmax noentmax).lru Lru.dirlru) 0 dirmax
      × IsRange ((dnclist_init dirmax regmax noentmax).lru Lru.reglru) dirmax (dirmax + regmax)
      × IsRange
          ((dnclist_init dirmax regmax noentmax).lru Lru.noentlru)
          (dirmax + regmax)
          (dirmax + regmax + noentmax)
  unfolding dnclist_init
  regions =
      let start = dirmax + regmax in
      let entries = count-add_free dirmax start (start + noentmax) in
      (
        λ d. entries Lru.dirlru d ∙ ground arith,
        λ d. entries Lru.reglru d ∙ ground arith,
        λ d. entries Lru.noentlru d ∙ ground arith,
      )

-- A new cache is valid. The list of directories has the first entries, as many as there are to be for
-- directories, the list of files the next ones, and the list of names that are not found the rest;
-- each entry is once in its list.
pub dnclist_init-IsLinked :
    (dirmax regmax noentmax : ℕ)
    → IsLinked (dnclist_init dirmax regmax noentmax)
      × IsKeyed (dnclist_init dirmax regmax noentmax)
      × IsRange ((dnclist_init dirmax regmax noentmax).lru Lru.dirlru) 0 dirmax
      × IsRange ((dnclist_init dirmax regmax noentmax).lru Lru.reglru) dirmax (dirmax + regmax)
      × IsRange
          ((dnclist_init dirmax regmax noentmax).lru Lru.noentlru)
          (dirmax + regmax)
          (dirmax + regmax + noentmax)
unfolding dnclist_init
dnclist_init-IsLinked dirmax regmax noentmax = (
  record {
    chains = λ h d. if_same (ltb d (dirmax + regmax + noentmax));
    lists = λ l d. count-add_free dirmax (dirmax + regmax) (dirmax + regmax + noentmax) l d;
    views = λ v ne. sym (zeros v (dirmax + regmax + noentmax) ne);
    creds = λ v ne. sym (zeros_cred v (dirmax + regmax + noentmax) ne);
  },
  record {
    unique = λ h d d' o o' p. absurd (o refl);
    dots = λ h d o. absurd (o refl);
    rings = λ h d o. absurd (o refl);
  },
  (regions dirmax regmax noentmax).0,
  (regions dirmax regmax noentmax).1,
  (regions dirmax regmax noentmax).2,
)
