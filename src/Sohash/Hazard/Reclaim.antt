-- ===== src/Sohash/Hazard/Reclaim.antt =====
-- `sohash_hprec_scan`: it frees no entry that a hazard pointer names, and loses none.
use mathlib.Core.List.{Perm, Permᴰ}
use mathlib.Core.Logic.{∥∥₁_elim}
use native.Mathlib.Nat.{ℕ_set}
use mvfs.Prelude.{
  ℕ, zero, suc, ◌+◌, ◌-◌, ◌≤◌, ◌<◌, ◌%◌, ◌^◌, ◌≡◌, refl, ap, sym, ◌∙◌, Bool, true, false, List, [],
  ◌∷◌, ◌++◌, some, ltb, if◌then◌else◌, length, replicate, get_elem?, length-append,
  length-replicate, arith, All, Bool-cases, inl, inr,
}
use mvfs.Sohash.Arrays.{sort_arr, search_arr}
use mvfs.Sohash.Arrays.Sorting.{sort_arr-sorts}
use mvfs.Sohash.Arrays.Searching.{contains, search_arr-contains}
use mvfs.Sohash.Types.{ok, Entry, HazardRef, Table, Host}
use mvfs.Sohash.Hazard.{data_of, hazard_keys, plist, Scan, scan_loop, hprec_scan, at_hp}

contains_permᴰ : {xs ys : List ℕ} (k : ℕ) → Permᴰ xs ys → contains xs k ≡ contains ys k
unfolding contains
contains_permᴰ k Permᴰ.nil = refl
contains_permᴰ k (Permᴰ.cons e p) = ground (arith, contains_permᴰ k p)
contains_permᴰ k (Permᴰ.swap e f) = ground arith
contains_permᴰ k (Permᴰ.trans p q) = contains_permᴰ k p ∙ contains_permᴰ k q

Bool-set : IsSet Bool
Bool-set = hlevel

contains-perm : (xs ys : List ℕ) (k : ℕ) → Perm xs ys → contains xs k ≡ contains ys k
contains-perm xs ys k p = ∥∥₁_elim p (Bool-set _ _) (contains_permᴰ k)

contains-padding :
    (keys : List ℕ) (n k : ℕ) → 0 < k → contains (keys ++ replicate n 0) k ≡ contains keys k
unfolding contains
contains-padding [] zero k pos = refl
contains-padding [] (suc n) k pos = ground (arith, contains-padding [] n k pos)
contains-padding (x ∷ xs) n k pos = ground (arith, contains-padding xs n k pos)

-- A hazard pointer of some reference names an entry with this key.
is_hazard : List HazardRef → Entry → Bool
is_hazard hps e = contains (hazard_keys hps) e.reverse_so_key

length_permᴰ : {xs ys : List ℕ} → Permᴰ xs ys → length xs ≡ length ys
length_permᴰ Permᴰ.nil = refl
length_permᴰ (Permᴰ.cons e p) = ap suc (length_permᴰ p)
length_permᴰ (Permᴰ.swap e f) = refl
length_permᴰ (Permᴰ.trans p q) = length_permᴰ p ∙ length_permᴰ q

length-sort_arr : (arr : List ℕ) → length (sort_arr arr (length arr)) ≡ length arr
length-sort_arr arr = ∥∥₁_elim (sort_arr-sorts arr).1 (ℕ_set _ _) length_permᴰ

search-sort :
    (arr : List ℕ) (k n : ℕ)
    → n ≡ length arr
    → search_arr (suc n) (sort_arr arr n) k 0 n ≡ some (contains arr k)
search-sort arr k n e =
    ap (λ m. search_arr (suc m) (sort_arr arr m) k 0 m) e
    ∙ ap (λ m. search_arr (suc m) sorted k 0 m) (sym (length-sort_arr arr))
    ∙ search_arr-contains sorted k (sort_arr-sorts arr).0
    ∙ ap some (contains-perm sorted arr k (sort_arr-sorts arr).1)
  where
    sorted : List ℕ
    sorted = sort_arr arr (length arr)

plist-contains :
    (hps : List HazardRef) (total : ℕ) (k : ℕ)
    → length (hazard_keys hps) ≤ total
    → 0 < k
    → search_arr (suc total) (plist hps total) k 0 total ≡ some (contains (hazard_keys hps) k)
unfolding plist
plist-contains hps total k fits pos =
    let keys = hazard_keys hps in
    let pad = total - length keys in
    search-sort (keys ++ replicate pad 0) k total
      (omega (arith, length-append keys (replicate pad 0), length-replicate {A = ℕ} pad 0))
    ∙ ap some (contains-padding keys pad k pos)

plist-is_hazard :
    (hps : List HazardRef) (total : ℕ) (e : Entry)
    → length (hazard_keys hps) ≤ total
    → 0 < e.reverse_so_key
    → search_arr (suc total) (plist hps total) e.reverse_so_key 0 total ≡ some (is_hazard hps e)
unfolding is_hazard
plist-is_hazard hps total e fits pos = plist-contains hps total e.reverse_so_key fits pos

-- What a scan keeps, newest first, and the data that it gives back.
pub kept_of : List HazardRef → List Entry → List Entry → List Entry
kept_of hps [] acc = acc
kept_of hps (e ∷ es) acc = kept_of hps es (if is_hazard hps e then e ∷ acc else acc)

pub freed_of : List HazardRef → List Entry → List ℕ → List ℕ
freed_of hps [] acc = acc
freed_of hps (e ∷ es) acc = freed_of hps es (if is_hazard hps e then acc else data_of e ++ acc)

scan_loop-parts :
    (hps : List HazardRef) (total : ℕ) (es : List Entry) (s : Scan)
    → length (hazard_keys hps) ≤ total
    → All (λ e. 0 < e.reverse_so_key) es
    → length s.kept + length es < 2 ^ 32
    → s.count ≡ length s.kept
    → scan_loop (plist hps total) total es s
      ≡ ok (record {
        kept = kept_of hps es s.kept;
        count = length (kept_of hps es s.kept);
        freed = freed_of hps es s.freed;
      })
unfolding scan_loop kept_of freed_of
scan_loop-parts hps total [] s fits pos small counted =
    ap (λ n. ok (record s { count = n })) counted
scan_loop-parts hps total (e ∷ es) s fits pos small counted =
    rw (plist-is_hazard hps total e fits pos.0, scan_loop)
      (elim (Bool-cases (is_hazard hps e)) [
        | inl hit ↦ rw hit (
            scan_loop-parts hps total es
              (record s { kept = e ∷ s.kept; count = (s.count + 1) % 2 ^ 32 }) fits pos.1
              (omega arith) (omega arith))
        | inr miss ↦ rw miss (
            scan_loop-parts hps total es (record s { freed = data_of e ++ s.freed }) fits pos.1
              (omega arith) counted)
      ])

-- The scan of a reference whose retired entries have keys above 0, with room for the hazard keys and
-- memory at hand, ends; it keeps just the retired entries that some hazard pointer names by key, frees the
-- data of all others, counts what it keeps, and changes nothing else of the references.
pub hprec_scan-reclaims :
    (env : Host) (t : Table) (i : ℕ) (h : HazardRef)
    → get_elem? t.hp_list i ≡ some h
    → env.grant t.allocs ≡ true
    → length (hazard_keys t.hp_list) ≤ t.hazard_ptrs_total
    → All (λ e. 0 < e.reverse_so_key) h.rlist
    → length h.rlist < 2 ^ 32
    → hprec_scan env t i
      ≡ ok (record t {
        hp_list =
            at_hp
              (λ h'. record h' {
                rlist = kept_of t.hp_list h.rlist [];
                rcount = length (kept_of t.hp_list h.rlist []);
              })
              t.hp_list
              i;
        freed = freed_of t.hp_list h.rlist t.freed;
        allocs = t.allocs + 1;
      })
unfolding hprec_scan
hprec_scan-reclaims env t i h here mem fits pos small =
    let start : Scan = record { kept = []; count = 0; freed = t.freed } in
    let room : ltb t.hazard_ptrs_total (length (hazard_keys t.hp_list)) ≡ false = ground arith in
    let run =
      scan_loop-parts t.hp_list t.hazard_ptrs_total h.rlist start fits pos (omega arith) refl in
    rw (here, mem, room, run, hprec_scan)
