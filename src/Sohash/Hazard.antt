-- ===== src/Sohash/Hazard.antt =====
-- Hazard references and safe memory reclamation (mvfs_sohash_table.c): `sohash_hp_get`,
-- `sohash_hp_release`, `sohash_flush_hp_list`, `sohash_retire_node`, `sohash_hprec_scan`,
-- `sohash_free_node`, `sohash_free_data`.
pub mod Reclaim
use mvfs.Prelude.{
  ltb, ◌==◌, ℕ, zero, suc, ◌+◌, ◌-◌, ◌%◌, ◌^◌, true, false, not, ◌&&◌, List, [], ◌∷◌, ◌++◌, Option,
  none, some, leb, if◌then◌else◌, length, replicate, get_elem?,
}
use mvfs.Sohash.Arrays.{sort_arr, search_arr}
use mvfs.Sohash.Types.{
  Run, ok, stop, panic, wild, fuel_out, ◌>>=◌, Entry, HazardRef, Table, Host, is_sentinel,
  is_active,
}

-- `sohash_free_data`: the callback gets what is not null.
abbrev pub data_of : Entry → List ℕ
data_of e = elim e.content [ none ↦ [] | some d ↦ d ∷ [] ]

-- `sohash_free_node`.
unfoldable pub free_node : Table → Entry → Table
free_node t e = record t { freed = data_of e ++ t.freed }

abbrev pub blank_hp : HazardRef
blank_hp = record { hp0 = none; hp1 = none; hp2 = none; rlist = []; rcount = 0; in_use = true }

-- The first reference that is free, by its place.
pub first_free : List HazardRef → Option ℕ
first_free [] = none
first_free (h ∷ hs) =
    let later : Option ℕ = elim (first_free hs) [ none ↦ none | some i ↦ some (suc i) ] in
    if h.in_use then later else some 0

pub mark_used : List HazardRef → ℕ → List HazardRef
mark_used [] i = []
mark_used (h ∷ hs) zero = record h { in_use = true } ∷ hs
mark_used (h ∷ hs) (suc i) = h ∷ mark_used hs i

-- `sohash_hp_get`: a free reference, or a new one at the head of the list. The result is its place.
unfoldable pub hp_get : Host → Table → Table × Option ℕ
unfolding first_free mark_used
hp_get env t = elim (first_free t.hp_list) [
  | some i ↦ (record t { hp_list = mark_used t.hp_list i }, some i)
  | none ↦
      if env.grant t.allocs
      then (
        record t {
          hp_list = blank_hp ∷ t.hp_list;
          hazard_ptrs_total = (t.hazard_ptrs_total + 3) % 2 ^ 32;
          allocs = t.allocs + 1;
        },
        some 0,
      )
      else (record t { allocs = t.allocs + 1 }, none)
]

-- A change of one reference of the list.
unfoldable pub at_hp : (HazardRef → HazardRef) → List HazardRef → ℕ → List HazardRef
at_hp f [] i = []
at_hp f (h ∷ hs) zero = f h ∷ hs
at_hp f (h ∷ hs) (suc i) = h ∷ at_hp f hs i

abbrev pub release_ref : HazardRef → HazardRef
release_ref h = record h { hp0 = none; hp1 = none; hp2 = none; in_use = false }

abbrev pub clear_ref : HazardRef → HazardRef
clear_ref h = record h { hp0 = none; hp1 = none; hp2 = none }

-- `sohash_hp_release`.
unfoldable pub hp_release : Table → ℕ → Table
unfolding at_hp
hp_release t i = record t { hp_list = at_hp release_ref t.hp_list i }

abbrev pub key_of : Option Entry → List ℕ
key_of none = []
key_of (some e) = e.reverse_so_key ∷ []

-- The keys of the hazard pointers that are set, in the order of the list.
unfoldable pub hazard_keys : List HazardRef → List ℕ
hazard_keys [] = []
hazard_keys (h ∷ hs) = key_of h.hp0 ++ (key_of h.hp1 ++ (key_of h.hp2 ++ hazard_keys hs))

-- `plist` after the sort: the keys, and zeros up to the number of hazard pointers.
unfoldable pub plist : List HazardRef → ℕ → List ℕ
unfolding hazard_keys
plist hps total =
    let keys = hazard_keys hps in sort_arr (keys ++ replicate (total - length keys) 0) total

pub record Scan : Type 0 where
  pub kept : List Entry
  pub count : ℕ
  pub freed : List ℕ

-- Stage 2 of `sohash_hprec_scan`: an entry whose key is found goes back, any other is freed.
unfoldable pub scan_loop : List ℕ → ℕ → List Entry → Scan → Run Scan
scan_loop keys total [] s = ok s
scan_loop keys total (e ∷ es) s = elim (search_arr (suc total) keys e.reverse_so_key 0 total) [
  | none ↦ stop fuel_out
  | some hit ↦ scan_loop keys total es (
      if hit
      then record s { kept = e ∷ s.kept; count = (s.count + 1) % 2 ^ 32 }
      else record s { freed = data_of e ++ s.freed })
]

-- `sohash_hprec_scan` on the reference at `i`: no memory for `plist` is a panic, and more keys than
-- it has room for are written behind its end.
unfoldable pub hprec_scan : Host → Table → ℕ → Run Table
unfolding scan_loop at_hp
hprec_scan env t i = elim (get_elem? t.hp_list i) [
  | none ↦ stop wild
  | some h ↦
      if not (env.grant t.allocs)
      then stop panic
      else if ltb t.hazard_ptrs_total (length (hazard_keys t.hp_list))
      then stop wild
      else (scan_loop (plist t.hp_list t.hazard_ptrs_total) t.hazard_ptrs_total h.rlist
            (record { kept = []; count = 0; freed = t.freed })
          >>= λ s. ok (record t {
            hp_list = at_hp (λ h. record h { rlist = s.kept; rcount = s.count }) t.hp_list i;
            freed = s.freed;
            allocs = t.allocs + 1;
          }))
]

abbrev retire_ref : Entry → HazardRef → HazardRef
retire_ref e h = record h { rlist = e ∷ h.rlist; rcount = (h.rcount + 1) % 2 ^ 32 }

-- `sohash_retire_node`: the entry joins the list of the reference at `i`; a long list is scanned.
unfoldable pub retire_node : Host → Table → ℕ → Entry → Run Table
unfolding at_hp
retire_node env t i e =
    let t' = record t {
      hp_list = at_hp (retire_ref e) t.hp_list i;
      deleted =
          (if not (is_sentinel e.entry_type) && env.on_delete then e ∷ t.deleted else t.deleted);
    } in
    let scanned = hprec_scan env t' i in
    if is_sentinel e.entry_type && is_active t.hash_state
    then stop panic
    else elim (get_elem? t'.hp_list i) [
      | none ↦ stop wild
      | some h ↦
          if is_active t.hash_state && leb t.hazard_ptrs_total h.rcount then scanned else ok t'
    ]

-- The entries of one list, given back one by one; `rcount` goes down with each.
flush_rlist : List Entry → ℕ → List ℕ → ℕ × List ℕ
flush_rlist [] count freed = (count, freed)
flush_rlist (e ∷ es) count freed =
    flush_rlist es ((count + 2 ^ 32 - 1) % 2 ^ 32) (data_of e ++ freed)

-- `sohash_flush_hp_list`: it frees the retired entries of each reference, then the reference.
unfoldable flush_hp_list : List HazardRef → List ℕ → Run (List ℕ)
unfolding flush_rlist
flush_hp_list [] freed = ok freed
flush_hp_list (h ∷ hs) freed =
    let r = flush_rlist h.rlist h.rcount freed in
    let rest = flush_hp_list hs r.1 in if r.0 == 0 then rest else stop panic
