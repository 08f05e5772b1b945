-- ===== src/Sohash/Invariant/Sentinel.antt =====
-- The sentinel of a bucket: `sohash_initialize_bucket` from the allocation of the node on.
use mathlib.Core.Path.{subst}
use mvfs.Prelude.{
  ◌≢◌, ℕ, ◌+◌, ◌≤◌, ◌<◌, ◌≡◌, refl, ap, sym, ◌∙◌, true, false, List, ◌∷◌, ◌++◌, Option, none, arith,
  All, Bool-cases, inl, inr,
}
use mvfs.Sohash.Chain.Sorted.{All-append, All-left, All-right}
use mvfs.Sohash.Chain.Heads.{All-ne_of_lt, HasHead, IsDistinct, HasHead-at}
use mvfs.Sohash.Bits.{sentinelkey, regularkey}
use mvfs.Sohash.Bits.Order.{regularkey_odd, sentinelkey_even}
use mvfs.Sohash.Types.{Run, ◌>>=◌, Entry, Table, Host, is_active}
use mvfs.Sohash.Hazard.{free_node, at_hp, clear_ref}
use mvfs.Sohash.Chain.Insert.{exists, added, list_insert-cases}
use mvfs.Sohash.Chain.Look.{look, look-insert_ne}
use mvfs.Sohash.Buckets.{sentinel_node, alloc_node, add_sentinel, set_bucket}
use mvfs.Sohash.Buckets.Slots.{capacity, slot}
use mvfs.Sohash.Invariant.{IsValid, Keeps, Keeps-trans}
use mvfs.Sohash.Invariant.Install.{Outcome, install-Outcome, answer}
use mvfs.Sohash.Invariant.Grown.{
  refreshed, refreshed-slot, refreshed-Keeps, refreshed-IsValid, grown-IsValid, grown-slot,
  grown-HasHead,
}

-- An outcome from a later table on is one from an earlier table on.
pub Outcome-from :
    (env : Host) (t u : Table) (h : ℕ) (run : Run (Table × Option ℕ))
    → Keeps t u
    → ((k : ℕ) → h < k → slot u k ≡ slot t k)
    → t.allocs ≤ u.allocs
    → ((a : ℕ) → a < t.allocs → All (λ y. a ≢ y.addr) t.chain → All (λ y. a ≢ y.addr) u.chain)
    → Outcome env u h run
    → Outcome env t h run
Outcome-from env t u h run keeps above later absent o = record {
  after = o.after;
  result = o.result;
  runs = o.runs;
  valid = o.valid;
  keeps = Keeps-trans keeps o.keeps;
  refused = λ up. o.refused (ap is_active keeps.state ∙ up);
  later = omega (arith, later, o.later);
  absent = λ a q p. o.absent a (omega (arith, q, later)) (absent a q p);
  above = λ k lt. o.above k lt ∙ above k lt;
  slotted = o.slotted;
}

pub Outcome-run :
    (env : Host) (t : Table) (h : ℕ) (run run' : Run (Table × Option ℕ))
    → run ≡ run'
    → Outcome env t h run'
    → Outcome env t h run
Outcome-run env t h run run' e o = subst (Outcome env t h) (sym e) o

-- The sentinel of `h` behind a bucket whose sentinel stands before.
module _ (env : Host) (t : Table) (h p q i : ℕ) (v : IsValid t) (lt : h < capacity t)
    (empty : slot t h ≡ none) (head : HasHead t.chain p (sentinelkey q))
    (before : sentinelkey q < sentinelkey h) where
  abbrev node : Entry
  node = sentinel_node t.allocs h

  abbrev requested : Table
  requested = refreshed t t.hp_list t.hazard_ptrs_total (t.allocs + 1) t.freed

  -- A table with the sentinel in its list.
  abbrev with_node : List Entry → Table
  with_node l =
      record (refreshed t (at_hp clear_ref t.hp_list i) t.hazard_ptrs_total (t.allocs + 1)
        t.freed) { chain = l }

  add_sentinel-added :
      (xs ys : List Entry)
      → t.chain ≡ xs ++ ys
      → All (λ e. e.reverse_so_key ≤ sentinelkey h) xs
      → All (λ e. sentinelkey h < e.reverse_so_key) ys
      → Outcome env t h
          (set_bucket env (with_node (xs ++ (node ∷ ys))) h t.allocs true >>= answer t.allocs)
  add_sentinel-added xs ys cut low high =
      let hps = at_hp clear_ref t.hp_list i in
      let n = t.allocs + 1 in
      let here = All-ne_of_lt t.allocs t.allocs t.chain (omega arith) v.fresh in
      let u = with_node (xs ++ (node ∷ ys)) in
      let slots =
        grown-slot t hps t.hazard_ptrs_total n t.freed v (omega arith) xs ys node cut low high here
          (omega arith) in
      let valid =
        grown-IsValid t hps t.hazard_ptrs_total n t.freed v (omega arith) xs ys node cut low high
          here (omega arith) in
      let at_node =
        grown-HasHead t hps t.hazard_ptrs_total n t.freed v (omega arith) xs ys node cut low high
          here (omega arith) in
      let keeps : Keeps t u = record {
        sz = refl;
        wide = refl;
        state = refl;
        size = refl;
        unique = refl;
        count = refl;
        looks = λ k.
            look-insert_ne (regularkey k) xs ys node (λ e.
              absurd
                (omega (arith, regularkey_odd k, sentinelkey_even h (omega (arith, v.small)), e)))
            ∙ ap (look (regularkey k)) (sym cut);
      } in
      Outcome-from env t u h (set_bucket env u h t.allocs true >>= answer t.allocs) keeps
        (λ k _. slots k) (omega arith)
        (λ a q p.
          let old = subst (All (λ y. a ≢ y.addr)) cut p in
          All-append _ xs (node ∷ ys) (All-left _ xs ys old) (omega arith, All-right _ xs ys old))
        (install-Outcome env u h t.allocs true valid lt (slots h ∙ empty) at_node)

  add_sentinel-exists :
      (xs ys : List Entry) (e : Entry)
      → t.chain ≡ xs ++ (e ∷ ys)
      → e.reverse_so_key ≡ sentinelkey h
      → Outcome env t h (set_bucket env (with_node t.chain) h e.addr false >>= answer e.addr)
  add_sentinel-exists xs ys e cut keyed =
      let hps = at_hp clear_ref t.hp_list i in
      let n = t.allocs + 1 in
      let u = refreshed t hps t.hazard_ptrs_total n t.freed in
      let at_e : HasHead t.chain e.addr (sentinelkey h) =
        subst (λ l. HasHead l e.addr (sentinelkey h)) (sym cut)
          (subst (HasHead (xs ++ (e ∷ ys)) e.addr) keyed
            (HasHead-at xs ys e (subst IsDistinct cut v.distinct))) in
      Outcome-from env t u h (set_bucket env u h e.addr false >>= answer e.addr)
        (refreshed-Keeps t hps t.hazard_ptrs_total n t.freed)
        (λ k _. refreshed-slot t hps t.hazard_ptrs_total n t.freed k) (omega arith) (λ a q p. p)
        (install-Outcome env u h e.addr false
          (refreshed-IsValid t hps t.hazard_ptrs_total n t.freed (omega arith) v) lt
          (refreshed-slot t hps t.hazard_ptrs_total n t.freed h ∙ empty) at_e)

  pub add_sentinel-Outcome : Outcome env t h (add_sentinel env t h p i)
  unfolding add_sentinel alloc_node set_bucket free_node
  add_sentinel-Outcome = elim (Bool-cases (env.grant t.allocs)) [
    | inr no_mem ↦ record {
      after = requested;
      result = none;
      runs = rw (add_sentinel, alloc_node, no_mem);
      valid =
          refreshed-IsValid t t.hp_list t.hazard_ptrs_total (t.allocs + 1) t.freed (omega arith) v;
      keeps = refreshed-Keeps t t.hp_list t.hazard_ptrs_total (t.allocs + 1) t.freed;
      later = omega arith;
      absent = λ a q p. p;
      above = λ k _. refreshed-slot t t.hp_list t.hazard_ptrs_total (t.allocs + 1) t.freed k;
      refused = λ _ _. (t.allocs, no_mem);
      slotted = λ a e. cc;
    }
    | inl mem ↦
        elim (list_insert-cases requested p (sentinelkey q) node (λ _. true) i v.sorted head
          before) [
            | exists xs ys e cut keyed _ run ↦
                Outcome-run env t h _ _ (rw (add_sentinel, alloc_node, mem, run, ◌>>=◌))
                  (add_sentinel-exists xs ys e cut keyed)
            | added xs ys cut low high _ run ↦
                Outcome-run env t h _ _ (rw (add_sentinel, alloc_node, mem, run, ◌>>=◌))
                  (add_sentinel-added xs ys cut low high)
          ]
  ]
