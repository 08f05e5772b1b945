-- ===== src/Sohash/Find.antt =====
-- `sohash_find_entry` in a table whose keys are unique finds what the table holds under the key.
use native.Mathlib.Nat.{mod-lt}
use mathlib.Core.Path.{subst}
use mvfs.Prelude.{
  ◌-◌, ◌==◌, if◌then◌else◌, sym, refl, ap, ◌⊎◌, ◌%◌, Option, Bool, ◌∷◌, none, Bool-cases, ◌∙◌, ◌+◌,
  false, ◌^◌, inl, some, ◌≤◌, arith, true, ◌<◌, inr, Option-cases, List, ℕ, ◌≡◌,
}
use mvfs.Sohash.Types.{◌>>=◌, HazardRef, is_active, ok, Entry, Table, Host, regular}
use mvfs.Sohash.Operations.{bucket_of, find_entry, parent_fuel}
use mvfs.Sohash.Invariant.{IsReady, IsValid, Keeps, Keeps-refl, Keeps-trans}
use mvfs.Sohash.Invariant.Install.{Outcome, Refused}
use mvfs.Sohash.Invariant.Initialize.{initialize_bucket-Outcome}
use mvfs.Sohash.Invariant.Sentinel.{Outcome-run}
use mvfs.Sohash.Buckets.Slots.{capacity, slot, get_bucket-slot}
use mvfs.Sohash.Hazard.{hp_get, hp_release, mark_used, first_free, blank_hp, at_hp}
use mvfs.Sohash.Invariant.Grown.{refreshed, refreshed-Keeps, refreshed-IsValid}
use mvfs.Sohash.Bits.{regularkey, sentinelkey}
use mvfs.Sohash.Chain.{find_node, walk, list_find, point_at, first}
use mvfs.Sohash.Chain.Look.{look, identity, cut-look}
use mvfs.Sohash.Chain.Walk.{IsSorted, list_find-IsCut}
use mvfs.Sohash.Chain.Heads.{HasHead, HasHead-cut}
use mvfs.Sohash.Chain.Sorted.{IsSorted-right, IsSorted-before}
use mvfs.Sohash.Bits.Mirror.{two-pow-pos}
use mvfs.Sohash.Bits.Order.{sentinelkey-lt-regularkey}

-- A bucket below the capacity is found or set up.
pub bucket_of-Outcome :
    (env : Host) (t : Table) (h i : ℕ)
    → IsValid t
    → h < capacity t
    → Outcome env t h (bucket_of env t h i)
unfolding bucket_of
bucket_of-Outcome env t h i v lt = elim (Option-cases (slot t h)) [
  | inr (a, full) ↦ record {
    after = t;
    result = some a;
    runs = rw (get_bucket-slot t v.shape h lt, full, ◌>>=◌);
    valid = v;
    keeps = Keeps-refl t;
    later = omega arith;
    absent = λ a q p. p;
    above = λ k _. refl;
    refused = λ _ q. cc;
    slotted = λ b e. full ∙ e;
  }
  | inl empty ↦ Outcome-run env t h _ _ (rw (get_bucket-slot t v.shape h lt, empty, ◌>>=◌)) (
      initialize_bucket-Outcome parent_fuel 32 env t h i (omega arith) (omega (arith, lt, v.small))
        v lt)
]

-- The reservation of a reference.
pub data Reserved (env : Host) (t : Table) : Type 0 where
  reserved :
      (hps : List HazardRef) (total n i : ℕ)
      → t.allocs ≤ n
      → hp_get env t ≡ (refreshed t hps total n t.freed, some i)
      → Reserved env t
  refused :
      env.grant t.allocs ≡ false
      → hp_get env t ≡ (refreshed t t.hp_list t.hazard_ptrs_total (t.allocs + 1) t.freed, none)
      → Reserved env t

pub hp_get-Reserved : (env : Host) (t : Table) → Reserved env t
unfolding hp_get
hp_get-Reserved env t = elim (Option-cases (first_free t.hp_list)) [
  | inr (i, free) ↦
      reserved (mark_used t.hp_list i) t.hazard_ptrs_total t.allocs i (omega arith)
        (rw (hp_get, free))
  | inl full ↦ elim (Bool-cases (env.grant t.allocs)) [
    | inl mem ↦
        reserved (blank_hp ∷ t.hp_list) ((t.hazard_ptrs_total + 3) % 2 ^ 32) (t.allocs + 1) 0
          (omega arith) (ground (arith, full, mem))
    | inr no_mem ↦ refused no_mem (ground (arith, full, no_mem))
  ]
]

-- The walk from a bucket's sentinel before the key finds what the whole list holds.
find_node-look :
    (t : Table) (a key rk i : ℕ) (matches : Entry → Bool)
    → t.keys_unique ≡ true
    → IsSorted t.chain
    → HasHead t.chain a key
    → key < rk
    → (hps : List HazardRef) × (r : Option Entry) × (find_node t a matches regular rk i
        ≡ ok (record t { hp_list = hps }, r))
      × (identity r ≡ look rk t.chain)
unfolding find_node walk
find_node-look t a key rk i matches unique sorted head lt =
    let hd = HasHead-cut t.chain a key head in
    let from = hd.entry ∷ hd.after in
    let spot = list_find t.keys_unique matches regular rk from in
    let cut =
      list_find-IsCut t.keys_unique matches regular rk from
        (IsSorted-right hd.before from (subst IsSorted (sym hd.join) sorted)) in
    let before_le =
      IsSorted-before hd.before hd.after hd.entry (subst IsSorted (sym hd.join) sorted) in
    (
      at_hp (point_at spot) t.hp_list i,
      (if spot.found then first spot.rest else none),
      rw (hd.cut, ◌>>=◌) refl,
      cut-look t.keys_unique matches regular hd.entry.reverse_so_key rk hd.before from spot unique
            refl cut before_le (omega (arith, hd.keyed, lt))
          ∙ ap (look rk) hd.join,
    )

pub record Found (env : Host) (t : Table) (key : ℕ) (matches : Entry → Bool) : Type 0 where
  pub after : Table
  pub result : Option Entry
  pub runs : find_entry env t key matches ≡ ok (after, result)
  pub valid : IsValid after
  pub keeps : Keeps t after
  pub answers : (identity result ≡ look (regularkey key) t.chain) ⊎ ((result ≡ none) × Refused env)

-- With a reference and a bucket at hand.
module _ (env : Host) (t u : Table) (key i : ℕ) (matches : Entry → Bool)
    (active : is_active t.hash_state ≡ true) (unique : t.keys_unique ≡ true)
    (got : hp_get env t ≡ (u, some i)) (nonzero : (u.current_size == 0) ≡ false)
    (kept : Keeps t u) where
  lookup_without_bucket :
      (b : Outcome env u (key % u.current_size) (bucket_of env u (key % u.current_size) i))
      → b.result ≡ none
      → Found env t key matches
  unfolding find_entry hp_release
  lookup_without_bucket b e = record {
    after = hp_release b.after i;
    result = none;
    runs = rw (active, got, got, nonzero, b.runs, ◌>>=◌, e);
    valid =
        refreshed-IsValid b.after _ b.after.hazard_ptrs_total b.after.allocs b.after.freed
          (omega arith) b.valid;
    keeps = Keeps-trans kept (
        Keeps-trans b.keeps
          (refreshed-Keeps b.after _ b.after.hazard_ptrs_total b.after.allocs b.after.freed));
    answers = inr (refl, b.refused (ap is_active kept.state ∙ active) e);
  }

  lookup_in_bucket :
      (b : Outcome env u (key % u.current_size) (bucket_of env u (key % u.current_size) i)) (a : ℕ)
      → b.result ≡ some a
      → HasHead b.after.chain a (sentinelkey (key % u.current_size))
      → sentinelkey (key % u.current_size) < regularkey key
      → Found env t key matches
  unfolding find_entry hp_release
  lookup_in_bucket b a e head lt =
      let (hps, r, run, answer) =
        find_node-look b.after a (sentinelkey (key % u.current_size)) (regularkey key) i matches
          (b.keeps.unique ∙ kept.unique ∙ unique) b.valid.sorted head lt in
      record {
        after = hp_release (record b.after { hp_list = hps }) i;
        result = r;
        runs = rw (active, got, got, nonzero, b.runs, ◌>>=◌, e, run);
        valid =
            refreshed-IsValid b.after _ b.after.hazard_ptrs_total b.after.allocs b.after.freed
              (omega arith) b.valid;
        keeps = Keeps-trans kept (
            Keeps-trans b.keeps
              (refreshed-Keeps b.after _ b.after.hazard_ptrs_total b.after.allocs b.after.freed));
        answers = inl (answer ∙ b.keeps.looks key ∙ kept.looks key);
      }

-- The bucket's sentinel key is before the regular key.
pub before_key :
    (t : Table) (key : ℕ) → IsReady t → sentinelkey (key % t.current_size) < regularkey key
before_key t key ready =
    subst (λ n. sentinelkey (key % n) < regularkey key) (sym ready.size)
      (sentinelkey-lt-regularkey ready.bits (32 - ready.bits) key (omega (arith, ready.word))
        ready.word).0

-- In a valid, active table with unique keys, whose size is a power of two up to `2 ^ 31` and within
-- its slots, a lookup of any key ends without a panic and without an access outside an array. It
-- returns the first entry of the list with the reversed key, by address and data, or nothing if there
-- is none; where there is one, it returns nothing only with a host that refuses some request for
-- memory. The table after it
-- is valid, has the same sizes, and every lookup of a regular key in its list gives the same.
pub find_entry-Found :
    (env : Host) (t : Table) (key : ℕ) (matches : Entry → Bool)
    → IsReady t
    → t.keys_unique ≡ true
    → Found env t key matches
unfolding find_entry
find_entry-Found env t key matches ready unique = elim (hp_get-Reserved env t) [
  | refused no_mem run ↦ record {
    after = refreshed t t.hp_list t.hazard_ptrs_total (t.allocs + 1) t.freed;
    result = none;
    runs = rw (ready.active, run, run);
    valid =
        refreshed-IsValid t t.hp_list t.hazard_ptrs_total (t.allocs + 1) t.freed (omega arith)
          ready.valid;
    keeps = refreshed-Keeps t t.hp_list t.hazard_ptrs_total (t.allocs + 1) t.freed;
    answers = inr (refl, (t.allocs, no_mem));
  }
  | reserved hps total n i le run ↦
      let u = refreshed t hps total n t.freed in
      let h = key % t.current_size in
      let below : h < t.current_size =
        mod-lt key (omega (arith, ready.size, two-pow-pos ready.bits)) in
      let valid = refreshed-IsValid t hps total n t.freed le ready.valid in
      let b = bucket_of-Outcome env u h i valid (omega (arith, below, ready.room)) in
      let kept = refreshed-Keeps t hps total n t.freed in
      let nonzero : (t.current_size == 0) ≡ false =
        ground (arith, ready.size, two-pow-pos ready.bits) in
      let wide : capacity b.after ≡ capacity t = rw (b.keeps.wide, b.keeps.sz) in
      elim (Option-cases b.result) [
        | inl e ↦
            lookup_without_bucket env t u key i matches ready.active unique run nonzero kept b e
        | inr (a, e) ↦
            lookup_in_bucket env t u key i matches ready.active unique run nonzero kept b a e
              (b.valid.heads h a (omega (arith, below, ready.room, b.keeps.wide, b.keeps.sz))
                (b.slotted a e))
              (before_key t key ready)
      ]
]
