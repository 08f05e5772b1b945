-- ===== src/Sohash/Arrays/Sorting.antt =====
-- `sohash_sort_arr` sorts: the result is ascending and holds the same elements.
use mathlib.Core.List.{Perm, perm_middle, append-nil}
use mathlib.Core.List.Perm
use mvfs.Prelude.{
  ℕ, suc, ◌+◌, ◌-◌, ◌≤◌, ◌≡◌, refl, ap, sym, ◌∙◌, List, [], ◌∷◌, ◌++◌, arith, ltb, get_or, set,
  length, if◌then◌else◌, Bool-cases, inl, inr, All,
}
use mvfs.Sohash.Arrays.{shift_loop, sort_loop, sort_arr}

-- `rs`, last element first, in front of `zs`: an array cut at the length of `rs`.
onto : List ℕ → List ℕ → List ℕ
onto [] zs = zs
onto (r ∷ rs) zs = onto rs (r ∷ zs)

get_or-onto : (rs zs : List ℕ) (k : ℕ) → get_or (onto rs zs) (length rs + k) 0 ≡ get_or zs k 0
unfolding onto
get_or-onto [] zs k = ap (λ i. get_or zs i 0) {x = 0 + k} {y = k} (omega arith)
get_or-onto (r ∷ rs) zs k =
    ap (λ i. get_or (onto rs (r ∷ zs)) i 0) {x = suc (length rs) + k} {y = length rs + suc k}
      (omega arith)
    ∙ get_or-onto rs (r ∷ zs) (suc k)

set-onto : (rs zs : List ℕ) (k v : ℕ) → set (onto rs zs) (length rs + k) v ≡ onto rs (set zs k v)
unfolding onto
set-onto [] zs k v = ap (λ i. set zs i v) {x = 0 + k} {y = k} (omega arith)
set-onto (r ∷ rs) zs k v =
    ap (λ i. set (onto rs (r ∷ zs)) i v) {x = suc (length rs) + k} {y = length rs + suc k}
      (omega arith)
    ∙ set-onto rs (r ∷ zs) (suc k) v

get_or-onto_here : (rs : List ℕ) (z : ℕ) (zs : List ℕ) → get_or (onto rs (z ∷ zs)) (length rs) 0 ≡ z
get_or-onto_here rs z zs =
    ap (λ i. get_or (onto rs (z ∷ zs)) i 0) {x = length rs} {y = length rs + 0} (omega arith)
    ∙ get_or-onto rs (z ∷ zs) 0

set-onto_here :
    (rs : List ℕ) (z : ℕ) (zs : List ℕ) (v : ℕ)
    → set (onto rs (z ∷ zs)) (length rs) v ≡ onto rs (v ∷ zs)
set-onto_here rs z zs v =
    ap (λ i. set (onto rs (z ∷ zs)) i v) {x = length rs} {y = length rs + 0} (omega arith)
    ∙ set-onto rs (z ∷ zs) 0 v

-- Insertion into a descending list.
place : ℕ → List ℕ → List ℕ
place t [] = t ∷ []
place t (r ∷ rs) = if ltb t r then r ∷ place t rs else t ∷ r ∷ rs

shift_loop-place :
    (rs : List ℕ) (d : ℕ) (zs : List ℕ) (t : ℕ)
    → shift_loop (length rs) (onto rs (d ∷ zs)) t ≡ onto (place t rs) zs
unfolding shift_loop place onto
shift_loop-place [] d zs t = refl
shift_loop-place (r ∷ rs) d zs t =
    let read = get_or-onto_here rs r (d ∷ zs) in
    elim (Bool-cases (ltb t r)) [
      | inl lt ↦
          rw (read, lt) (rw (set-onto_here (r ∷ rs) d zs r) (shift_loop-place rs r (r ∷ zs) t))
      | inr ge ↦ rw (read, ge) (set-onto_here (r ∷ rs) d zs t)
    ]

place_all : List ℕ → List ℕ → List ℕ
place_all rs [] = rs
place_all rs (z ∷ zs) = place_all (place z rs) zs

length-place : (t : ℕ) (rs : List ℕ) → length (place t rs) ≡ suc (length rs)
unfolding place
length-place t [] = refl
length-place t (r ∷ rs) = ground (arith, length-place t rs)

sort_loop-place_all :
    (rs zs : List ℕ) → sort_loop (length zs) (length rs) (onto rs zs) ≡ onto (place_all rs zs) []
unfolding sort_loop place_all
sort_loop-place_all rs [] = refl
sort_loop-place_all rs (z ∷ zs) =
    let next = sort_loop (length zs) in
    ap (λ v. next (suc (length rs)) (shift_loop (length rs) (onto rs (z ∷ zs)) v))
      (get_or-onto_here rs z zs)
    ∙ ap (next (suc (length rs))) (shift_loop-place rs z zs z)
    ∙ ap (λ i. next i (onto (place z rs) zs)) (sym (length-place z rs))
    ∙ sort_loop-place_all (place z rs) zs

-- Ascending and descending lists.
abbrev pub IsAscending : List ℕ → Type 0
IsAscending [] = Unit
IsAscending (x ∷ xs) = All (λ y. x ≤ y) xs × IsAscending xs

abbrev IsDescending : List ℕ → Type 0
IsDescending [] = Unit
IsDescending (x ∷ xs) = All (λ y. y ≤ x) xs × IsDescending xs

All-weaken : {a b : ℕ} (xs : List ℕ) → b ≤ a → All (λ y. y ≤ b) xs → All (λ y. y ≤ a) xs
All-weaken [] h p = tt
All-weaken (x ∷ xs) h p = (omega arith, All-weaken xs h p.1)

place-All : (a t : ℕ) (rs : List ℕ) → t ≤ a → All (λ y. y ≤ a) rs → All (λ y. y ≤ a) (place t rs)
unfolding place
place-All a t [] h p = (h, tt)
place-All a t (r ∷ rs) h p = elim (Bool-cases (ltb t r)) [
  | inl lt ↦ rw lt (p.0, place-All a t rs h p.1)
  | inr ge ↦ rw ge (h, p)
]

place-IsDescending : (t : ℕ) (rs : List ℕ) → IsDescending rs → IsDescending (place t rs)
unfolding place
place-IsDescending t [] p = (tt, tt)
place-IsDescending t (r ∷ rs) p = elim (Bool-cases (ltb t r)) [
  | inl lt ↦ rw lt (place-All r t rs (ground arith) p.0, place-IsDescending t rs p.1)
  | inr ge ↦ rw ge ((ground arith, All-weaken rs (ground arith) p.0), p)
]

place_all-IsDescending : (rs zs : List ℕ) → IsDescending rs → IsDescending (place_all rs zs)
unfolding place_all
place_all-IsDescending rs [] p = p
place_all-IsDescending rs (z ∷ zs) p =
    place_all-IsDescending (place z rs) zs (place-IsDescending z rs p)

-- Everything of a descending list is below everything of the other one.
abbrev Below : List ℕ → List ℕ → Type 0
Below rs zs = All (λ r. All (λ z. r ≤ z) zs) rs

Below-cons : (r : ℕ) (rs zs : List ℕ) → All (λ y. y ≤ r) rs → Below rs zs → Below rs (r ∷ zs)
Below-cons r [] zs p q = tt
Below-cons r (x ∷ rs) zs p q = ((p.0, q.0), Below-cons r rs zs p.1 q.1)

onto-IsAscending :
    (rs zs : List ℕ) → IsDescending rs → IsAscending zs → Below rs zs → IsAscending (onto rs zs)
unfolding onto
onto-IsAscending [] zs d a b = a
onto-IsAscending (r ∷ rs) zs d a b =
    onto-IsAscending rs (r ∷ zs) d.1 (b.0, a) (Below-cons r rs zs d.0 b.1)

Below-nil : (rs : List ℕ) → Below rs []
Below-nil [] = tt
Below-nil (r ∷ rs) = (tt, Below-nil rs)

place-perm : (t : ℕ) (rs : List ℕ) → Perm (place t rs) (t ∷ rs)
unfolding place
place-perm t [] = Perm.refl _
place-perm t (r ∷ rs) = elim (Bool-cases (ltb t r)) [
  | inl lt ↦ rw lt (Perm.trans (Perm.cons r (place-perm t rs)) (Perm.swap t r rs))
  | inr ge ↦ rw ge (Perm.refl _)
]

onto-perm : (rs zs : List ℕ) → Perm (onto rs zs) (rs ++ zs)
unfolding onto
onto-perm [] zs = Perm.refl _
onto-perm (r ∷ rs) zs = Perm.trans (onto-perm rs (r ∷ zs)) (perm_middle rs zs)

place_all-perm : (rs zs : List ℕ) → Perm (place_all rs zs) (rs ++ zs)
unfolding place_all
place_all-perm rs [] = rw append-nil (Perm.refl rs)
place_all-perm rs (z ∷ zs) =
    Perm.trans (place_all-perm (place z rs) zs)
      (Perm.trans (Perm.append (place-perm z rs) (Perm.refl zs)) (Perm.symm (perm_middle rs zs)))

-- The array of `count` elements becomes ascending, and keeps its elements.
pub sort_arr-sorts :
    (arr : List ℕ) → IsAscending (sort_arr arr (length arr)) × Perm (sort_arr arr (length arr)) arr
unfolding sort_arr onto
sort_arr-sorts [] = (tt, Perm.refl [])
sort_arr-sorts (x ∷ xs) =
    let sorted = place_all (x ∷ []) xs in
    let run : sort_arr (x ∷ xs) (length (x ∷ xs)) ≡ onto sorted [] =
      ap (λ n. sort_loop n 1 (x ∷ xs)) {x = suc (length xs) - 1} {y = length xs} (omega arith)
      ∙ sort_loop-place_all (x ∷ []) xs in
    rw run (
      onto-IsAscending sorted [] (place_all-IsDescending (x ∷ []) xs (tt, tt)) tt
          (Below-nil sorted),
      Perm.trans (onto-perm sorted []) (rw append-nil (place_all-perm (x ∷ []) xs)),
    )
