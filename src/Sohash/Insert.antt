-- ===== src/Sohash/Insert.antt =====
-- What `sohash_insert_entry` comes to, and what its proof shares.
pub mod Node
pub mod Complete
use native.Mathlib.Nat.{mod-lt, pow-suc, pow-le-pow_right}
use mvfs.Prelude.{
  refl, Bool-cases, ltb, ap, if◌then◌else◌, inl, inr, Option-cases, ◌/◌, ◌==◌, ◌<◌, ◌≤◌, sym, true,
  false, ◌≢◌, All, suc, Bool, ℕ, ◌+◌, ◌*◌, ◌%◌, ◌^◌, ◌≡◌, ◌∙◌, List, [], ◌∷◌, ◌++◌, Option, none,
  some, arith,
}
use mvfs.Sohash.Operations.{
  insert_reserved, insert_allocated, grow, insert_entry, insert_node, bucket_of, regular_node,
  indices_of, Inserted, failed,
}
use mvfs.Sohash.Chain.Heads.{All-ne_of_lt}
use mvfs.Sohash.Find.{reserved, refused, hp_get-Reserved, bucket_of-Outcome, before_key}
use mvfs.Sohash.Bits.{sentinelkey, regularkey}
use mvfs.Sohash.Bits.Mirror.{two-pow-pos}
use mvfs.Sohash.Buckets.{alloc_node}
use mvfs.Sohash.Chain.Insert.{exists, added, list_insert-cases}
use mvfs.Sohash.Invariant.Grown.{
  refreshed, grown, grown-IsValid, refreshed-Keeps, refreshed-IsValid,
}
use mvfs.Sohash.Hazard.{at_hp, clear_ref, release_ref, data_of, hp_release, free_node}
use mvfs.Sohash.Invariant.{Keeps-trans, IsValid, IsReady, Keeps}
use mvfs.Sohash.Invariant.Install.{Outcome, Refused}
use mvfs.Sohash.Chain.{list_insert}
use mvfs.Sohash.Types.{
  panic, stop, ◌>>=◌, Run, ok, Entry, Table, Host, HazardRef, Errno, eexist, is_active,
}
use mvfs.Sohash.Chain.Look.{look, look-insert_ne}
use mvfs.Sohash.Buckets.Slots.{capacity, slot}

-- What an insertion comes to.
pub data Entered (env : Host) (t : Table) (key : ℕ) (content : Option ℕ)
    (run : Run (Table × Inserted)) : Type 0 where
  entered :
      (u : Table) (node : Entry)
      → run ≡ ok (u, record { error = none; node = some node })
      → IsValid u
      → (t.current_size * 2 ≤ capacity t → IsReady u)
      → u.regularkey_count ≡ (t.regularkey_count + 1) % 2 ^ 32
      → look (regularkey key) t.chain ≡ none
      → ((k : ℕ)
          → look (regularkey k) u.chain ≡ (
              if regularkey key == regularkey k
              then some (node.addr, content)
              else look (regularkey k) t.chain))
      → Entered env t key content run
  asserted :
      (old : Entry)
      → env.asserts ≡ true
      → run ≡ stop panic
      → look (regularkey key) t.chain ≡ some (old.addr, old.content)
      → Entered env t key content run
  existing :
      (u : Table) (old : Entry)
      → env.asserts ≡ false
      → run ≡ ok (u, record { error = some eexist; node = some old })
      → IsReady u
      → u.regularkey_count ≡ t.regularkey_count
      → look (regularkey key) t.chain ≡ some (old.addr, old.content)
      → ((k : ℕ) → look (regularkey k) u.chain ≡ look (regularkey k) t.chain)
      → Entered env t key content run
  not_entered :
      (u : Table) (e : Errno)
      → run ≡ ok (u, failed e)
      → IsReady u
      → u.regularkey_count ≡ t.regularkey_count
      → ((k : ℕ) → look (regularkey k) u.chain ≡ look (regularkey k) t.chain)
      → Refused env
      → Entered env t key content run

look-insert_new :
    (key : ℕ) (xs ys : List Entry) (n : Entry)
    → n.reverse_so_key ≡ key
    → look key (xs ++ ys) ≡ none
    → look key (xs ++ (n ∷ ys)) ≡ some (n.addr, n.content)
unfolding look
look-insert_new key [] ys n e missing = ground arith
look-insert_new key (x ∷ xs) ys n e missing = ground (arith, look-insert_new key xs ys n e)

-- The lookups after a new entry.
pub look-insert :
    (key rk : ℕ) (xs ys : List Entry) (n : Entry)
    → n.reverse_so_key ≡ key
    → look key (xs ++ ys) ≡ none
    → look rk (xs ++ (n ∷ ys))
      ≡ (if key == rk then some (n.addr, n.content) else look rk (xs ++ ys))
look-insert key rk xs ys n e missing =
    ground (arith, look-insert_new key xs ys n e missing, look-insert_ne rk xs ys n)

-- A table that keeps its slots, its list and its size is as ready as before.
module _ (t u : Table) (ready : IsReady t) (valid : IsValid u) (keeps : Keeps t u) where
  pub Keeps-IsReady : IsReady u
  Keeps-IsReady =
      let room : capacity u ≡ capacity t = rw (keeps.wide, keeps.sz) in
      record {
        valid = valid;
        active = ap is_active keeps.state ∙ ready.active;
        bits = ready.bits;
        word = ready.word;
        size = keeps.size ∙ ready.size;
        room = omega (arith, room, keeps.size, ready.room);
      }

-- Counts and sizes are not read by the invariant.
abbrev pub tallied : Table → List HazardRef → ℕ → ℕ → Table
tallied t hps count size = record t { hp_list = hps; regularkey_count = count; current_size = size }

pub tallied-IsValid :
    (t : Table) (hps : List HazardRef) (count size : ℕ)
    → IsValid t
    → IsValid (tallied t hps count size)
unfolding slot
tallied-IsValid t hps count size v = record {
  shape = record { sz_pos = v.shape.sz_pos; fits = v.shape.fits };
  small = v.small;
  sorted = v.sorted;
  distinct = v.distinct;
  fresh = v.fresh;
  heads = v.heads;
  root = v.root;
}

-- A size that is a power of two stays one, doubled or not.
pub doubled :
    (c : Bool) (size bits most : ℕ)
    → size ≡ 2 ^ bits
    → bits ≤ 31
    → size * 2 ≤ most
    → most ≤ 2 ^ 31
    → (n : ℕ) × (n ≤ 31)
      × ((if c then size * 2 % 2 ^ 32 else size) ≡ 2 ^ n)
      × ((if c then size * 2 % 2 ^ 32 else size) ≤ most)
doubled false size bits most is_pow word room small = (bits, word, is_pow, omega arith)
doubled true size bits most is_pow word room small =
    let grows : 31 ≤ bits → 2 ^ 31 ≤ 2 ^ bits = λ le. pow-le-pow_right (omega arith) le in
    (suc bits, ground (arith, grows), omega (arith, pow-suc 2 bits), omega arith)
