-- ===== src/Sohash/Arrays/Searching.antt =====
-- `sohash_search_arr` finds exactly the elements of an ascending array.
use mvfs.Prelude.{
  ℕ, zero, suc, ◌+◌, ◌-◌, ◌/◌, ◌≤◌, ◌<◌, ◌≡◌, ◌≢◌, refl, ap, sym, ◌∙◌, Bool, true, false, List, [],
  ◌∷◌, some, arith, ltb, leb, ◌==◌, get_or, length, if◌then◌else◌, Bool-cases, inl, inr, All,
}
use mvfs.Sohash.Arrays.{search_arr}
use mvfs.Sohash.Arrays.Sorting.{IsAscending}

-- The search from one end to the other, which the binary search must agree with.
unfoldable pub contains : List ℕ → ℕ → Bool
contains [] key = false
contains (x ∷ xs) key = let rest = contains xs key in if x == key then true else rest

contains-get_or : (arr : List ℕ) (i : ℕ) → i < length arr → contains arr (get_or arr i 0) ≡ true
unfolding contains
contains-get_or [] i h = absurd (omega arith)
contains-get_or (x ∷ xs) zero h = ground arith
contains-get_or (x ∷ xs) (suc i) h = ground (arith, contains-get_or xs i)

not-contains :
    (arr : List ℕ) (key : ℕ)
    → ((i : ℕ) → i < length arr → get_or arr i 0 ≢ key)
    → contains arr key ≡ false
unfolding contains
not-contains [] key h = refl
not-contains (x ∷ xs) key h =
    ground (arith, h 0, not-contains xs key (λ i lt. h (suc i) (omega arith)))

All-get_or : (a : ℕ) (xs : List ℕ) (i : ℕ) → All (λ y. a ≤ y) xs → i < length xs → a ≤ get_or xs i 0
All-get_or a [] i p h = absurd (omega arith)
All-get_or a (x ∷ xs) zero p h = p.0
All-get_or a (x ∷ xs) (suc i) p h = All-get_or a xs i p.1 (omega arith)

get_or_mono :
    (arr : List ℕ) (i j : ℕ)
    → IsAscending arr
    → i ≤ j
    → j < length arr
    → get_or arr i 0 ≤ get_or arr j 0
get_or_mono [] i j p le lt = absurd (omega arith)
get_or_mono (x ∷ xs) zero zero p le lt = omega arith
get_or_mono (x ∷ xs) zero (suc j) p le lt = All-get_or x xs j p.0 (omega arith)
get_or_mono (x ∷ xs) (suc i) zero p le lt = absurd (omega arith)
get_or_mono (x ∷ xs) (suc i) (suc j) p le lt = get_or_mono xs i j p.1 (omega arith) (omega arith)

search_arr_range :
    (fuel : ℕ) (arr : List ℕ) (key low end : ℕ)
    → IsAscending arr
    → end ≤ length arr
    → end - low < fuel
    → ((i : ℕ) → i < low → get_or arr i 0 < key)
    → ((i : ℕ) → end ≤ i → i < length arr → key < get_or arr i 0)
    → search_arr fuel arr key low end ≡ some (contains arr key)
unfolding search_arr
search_arr_range zero arr key low end asc size enough left right = absurd (omega arith)
search_arr_range (suc fuel) arr key low end asc size enough left right =
    let mid = low + (end - 1 - low) / 2 in
    elim (Bool-cases (leb end low)) [
      | inl empty ↦
          rw (empty, not-contains arr key (λ i lt e. ground (arith, left i, right i))) refl
      | inr some_left ↦ elim (Bool-cases (ltb (get_or arr mid 0) key)) [
        | inl below ↦
            rw (some_left, below)
              (search_arr_range fuel arr key (mid + 1) end asc size (ground arith)
                (λ i h. ground (arith, get_or_mono arr i mid asc)) right)
        | inr notbelow ↦ elim (Bool-cases (ltb key (get_or arr mid 0))) [
          | inl above ↦
              rw (some_left, notbelow, above)
                (search_arr_range fuel arr key low mid asc (ground arith) (ground arith) left
                  (λ i h lt. ground (arith, get_or_mono arr mid i asc)))
          | inr notabove ↦
              let hit : get_or arr mid 0 ≡ key = ground arith in
              rw (some_left, notbelow, notabove)
                (ap some
                  (sym (ap (contains arr) (sym hit) ∙ contains-get_or arr mid (ground arith))))
        ]
      ]
    ]

-- Over an ascending array the search returns within its fuel, and says whether the key occurs.
pub search_arr-contains :
    (arr : List ℕ) (key : ℕ)
    → IsAscending arr
    → search_arr (suc (length arr)) arr key 0 (length arr) ≡ some (contains arr key)
search_arr-contains arr key asc =
    search_arr_range (suc (length arr)) arr key 0 (length arr) asc (omega arith) (omega arith)
      (λ i h. absurd (omega arith)) (λ i h lt. absurd (omega arith))
