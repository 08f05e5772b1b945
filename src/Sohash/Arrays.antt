-- ===== src/Sohash/Arrays.antt =====
-- `sohash_sort_arr` and `sohash_search_arr` of mvfs_sohash_table.c: the array of the hazard keys,
-- which `sohash_hprec_scan` sorts and searches. An array is a list, read as 0 outside.
pub mod Sorting
pub mod Searching
use mvfs.Prelude.{
  ℕ, zero, suc, ◌+◌, ◌-◌, ◌/◌, Bool, true, false, List, Option, none, some, ltb, leb, get_or, set,
  if◌then◌else◌,
}

-- The inner loop, for `j + 1`: it moves larger elements up and ends by the write of `temp`. (The C
-- text reads `arr[j]` before it tests `j >= 0`; the value read at -1 decides nothing.)
pub shift_loop : ℕ → List ℕ → ℕ → List ℕ
shift_loop zero arr temp = set arr 0 temp
shift_loop (suc j) arr temp =
    let rest = shift_loop j (set arr (suc j) (get_or arr j 0)) temp in
    if ltb temp (get_or arr j 0) then rest else set arr (suc j) temp

-- The outer loop, by the rounds left.
pub sort_loop : ℕ → ℕ → List ℕ → List ℕ
sort_loop zero i arr = arr
sort_loop (suc rounds) i arr = sort_loop rounds (suc i) (shift_loop i arr (get_or arr i 0))

unfoldable pub sort_arr : List ℕ → ℕ → List ℕ
unfolding sort_loop shift_loop
sort_arr arr count = sort_loop (count - 1) 1 arr

-- The half-open range ends at `high + 1`, a number also where `high` is -1. `none`: out of fuel.
unfoldable pub search_arr : ℕ → List ℕ → ℕ → ℕ → ℕ → Option Bool
search_arr zero arr key low end = none
search_arr (suc fuel) arr key low end =
    let mid = low + (end - 1 - low) / 2 in
    let upper = search_arr fuel arr key (mid + 1) end in
    let lower = search_arr fuel arr key low mid in
    if leb end low
    then some false
    else if ltb (get_or arr mid 0) key
    then upper
    else if ltb key (get_or arr mid 0)
    then lower
    else some true
