-- ===== src/Sohash/Invariant/Grown.antt =====
-- Changes of the table that keep the invariant: of what it does not read, and a new entry in order.
use mathlib.Core.Path.{subst}
use mvfs.Prelude.{ℕ, ◌≤◌, ◌<◌, ◌≡◌, ◌≢◌, refl, List, ◌∷◌, ◌++◌, arith, All}
use mvfs.Sohash.Bits.{sentinelkey}
use mvfs.Sohash.Types.{Entry, Table, HazardRef}
use mvfs.Sohash.Chain.Walk.{IsSorted}
use mvfs.Sohash.Chain.Heads.{
  HasHead, IsDistinct, HasHead-insert, HasHead-new, HasHead-ne, IsDistinct-insert,
}
use mvfs.Sohash.Chain.Sorted.{All-imp, All-append, All-left, All-right, IsSorted-insert}
use mvfs.Sohash.Buckets.Slots.{slot}
use mvfs.Sohash.Invariant.{IsValid, Keeps}

-- A table that differs in what the invariant does not read.
abbrev pub refreshed : Table → List HazardRef → ℕ → ℕ → List ℕ → Table
refreshed t hps total n freed = record t {
  hp_list = hps;
  hazard_ptrs_total = total;
  allocs = n;
  freed = freed;
}

module _ (t : Table) (hps : List HazardRef) (total n : ℕ) (freed : List ℕ) where
  pub refreshed-slot : (k : ℕ) → slot (refreshed t hps total n freed) k ≡ slot t k
  unfolding slot
  refreshed-slot k = refl

  pub refreshed-Keeps : Keeps t (refreshed t hps total n freed)
  refreshed-Keeps = record {
    sz = refl;
    wide = refl;
    state = refl;
    size = refl;
    unique = refl;
    count = refl;
    looks = λ k. refl;
  }

  pub refreshed-IsValid : t.allocs ≤ n → IsValid t → IsValid (refreshed t hps total n freed)
  unfolding slot
  refreshed-IsValid le v = record {
    shape = record { sz_pos = v.shape.sz_pos; fits = v.shape.fits };
    small = v.small;
    sorted = v.sorted;
    distinct = v.distinct;
    fresh = All-imp (λ e. e.addr < t.allocs) (λ e. e.addr < n) t.chain (λ e q. omega arith) v.fresh;
    heads = v.heads;
    root = v.root;
  }

  -- A new entry between those not above it and those above it, at a new address.
  module _ (v : IsValid t) (le : t.allocs ≤ n) (xs ys : List Entry) (node : Entry)
      (cut : t.chain ≡ xs ++ ys) (low : All (λ e. e.reverse_so_key ≤ node.reverse_so_key) xs)
      (high : All (λ e. node.reverse_so_key < e.reverse_so_key) ys)
      (absent : All (λ y. node.addr ≢ y.addr) t.chain) (at : node.addr < n) where
    abbrev pub grown : Table
    grown = record (refreshed t hps total n freed) { chain = xs ++ (node ∷ ys) }

    new : All (λ y. node.addr ≢ y.addr) (xs ++ ys)
    new = subst (All (λ y. node.addr ≢ y.addr)) cut absent

    pub grown-HasHead : HasHead (xs ++ (node ∷ ys)) node.addr node.reverse_so_key
    grown-HasHead = HasHead-new xs ys node new

    pub grown-slot : (k : ℕ) → slot grown k ≡ slot t k
    unfolding slot
    grown-slot k = refl

    pub grown-IsValid : IsValid grown
    unfolding slot
    grown-IsValid = record {
      shape = record { sz_pos = v.shape.sz_pos; fits = v.shape.fits };
      small = v.small;
      sorted = IsSorted-insert xs ys node (subst IsSorted cut v.sorted) low (
          All-imp (λ e. node.reverse_so_key < e.reverse_so_key)
            (λ e. node.reverse_so_key ≤ e.reverse_so_key) ys (λ e q. omega arith) high);
      distinct = IsDistinct-insert xs ys node new (subst IsDistinct cut v.distinct);
      fresh =
          let old =
            All-imp (λ e. e.addr < t.allocs) (λ e. e.addr < n) (xs ++ ys) (λ e q. omega arith)
              (subst (All (λ e. e.addr < t.allocs)) cut v.fresh) in
          All-append (λ e. e.addr < n) xs (node ∷ ys) (All-left (λ e. e.addr < n) xs ys old)
            (omega arith, All-right (λ e. e.addr < n) xs ys old);
      heads = λ k c lt e.
          let p = subst (λ l. HasHead l c (sentinelkey k)) cut (v.heads k c lt e) in
          HasHead-insert xs ys node c (sentinelkey k)
            (HasHead-ne (xs ++ ys) c (sentinelkey k) node.addr new p) p;
      root = v.root;
    }
