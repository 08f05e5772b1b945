-- ===== src/Sohash/Invariant.antt =====
-- The invariant of the split-ordered hash between its routines, and what a routine keeps.
pub mod Install
pub mod Grown
pub mod Sentinel
pub mod Initialize
use mvfs.Prelude.{
  true, ℕ, ◌+◌, ◌*◌, ◌^◌, ◌≤◌, ◌<◌, ◌≡◌, refl, ap, sym, ◌∙◌, Bool, List, [], ◌∷◌, ◌++◌, map, Option,
  none, some, arith, All, length,
}
use mvfs.Sohash.Bits.{sentinelkey, regularkey}
use mvfs.Sohash.Types.{Entry, Table, is_active}
use mvfs.Sohash.Chain.Walk.{IsSorted}
use mvfs.Sohash.Chain.Heads.{HasHead, IsDistinct}
use mvfs.Sohash.Chain.Look.{look}
use mvfs.Sohash.Buckets.Slots.{HasShape, capacity, slot}

-- The list is in split order, addresses are unique and below the next one, and each slot that is
-- set points to an entry with its bucket's sentinel key; bucket 0 is set.
pub record IsValid (t : Table) : Type 0 where
  pub shape : HasShape t
  pub small : capacity t ≤ 2 ^ 31
  pub sorted : IsSorted t.chain
  pub distinct : IsDistinct t.chain
  pub fresh : All (λ e. e.addr < t.allocs) t.chain
  pub heads : (h a : ℕ) → h < capacity t → slot t h ≡ some a → HasHead t.chain a (sentinelkey h)
  pub root : (a : ℕ) × (slot t 0 ≡ some a)

-- What the set-up of a bucket leaves as it was; the contents are what lookups of regular keys see.
pub record Keeps (t t' : Table) : Type 0 where
  pub sz : t'.segment_sz ≡ t.segment_sz
  pub wide : length t'.hashtable ≡ length t.hashtable
  pub state : t'.hash_state ≡ t.hash_state
  pub size : t'.current_size ≡ t.current_size
  pub unique : t'.keys_unique ≡ t.keys_unique
  pub count : t'.regularkey_count ≡ t.regularkey_count
  pub looks : (k : ℕ) → look (regularkey k) t'.chain ≡ look (regularkey k) t.chain

pub Keeps-refl : (t : Table) → Keeps t t
Keeps-refl t = record {
  sz = refl;
  wide = refl;
  state = refl;
  size = refl;
  unique = refl;
  count = refl;
  looks = λ k. refl;
}

pub Keeps-trans : {t u v : Table} → Keeps t u → Keeps u v → Keeps t v
Keeps-trans p q = record {
  sz = q.sz ∙ p.sz;
  wide = q.wide ∙ p.wide;
  state = q.state ∙ p.state;
  size = q.size ∙ p.size;
  unique = q.unique ∙ p.unique;
  count = q.count ∙ p.count;
  looks = λ k. q.looks k ∙ p.looks k;
}

-- The table is valid and its size is a power of two within its slots.
pub record IsReady (t : Table) : Type 0 where
  pub valid : IsValid t
  pub active : is_active t.hash_state ≡ true
  pub bits : ℕ
  pub word : bits ≤ 31
  pub size : t.current_size ≡ 2 ^ bits
  pub room : t.current_size ≤ capacity t
