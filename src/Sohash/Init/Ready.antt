-- ===== src/Sohash/Init/Ready.antt =====
-- `sohash_init_hashtable` gives an empty table that is ready for the operations.
use mathlib.Core.Option.{get_or, some-injective}
use mathlib.Core.Path.{subst}
use mvfs.Prelude.{
  ℕ, zero, suc, ◌+◌, ◌*◌, ◌/◌, ◌%◌, ◌^◌, ◌≤◌, ◌<◌, ◌≡◌, refl, ap, sym, ◌∙◌, true, false, List, [],
  ◌∷◌, map, Option, none, some, arith, All, replicate, length-replicate, get_elem?, inl, inr,
  Bool-cases, not, ◌&&◌, ◌||◌,
}
use mvfs.Sohash.Bits.Order.{regularkey_odd, sentinelkey_even}
use mvfs.Sohash.Types.{◌>>=◌, Run, ok, Entry, Table, Host, Segment, active}
use mvfs.Sohash.Bits.{sentinelkey, regularkey}
use mvfs.Sohash.Buckets.{place_entry, sentinel_node}
use mvfs.Sohash.Buckets.Slots.{
  Fits, HasShape, capacity, slot, slot_of, IsInstalled, set_bucket-cases,
}
use mvfs.Sohash.Chain.Heads.{HasHead, IsDistinct}
use mvfs.Sohash.Chain.Walk.{IsSorted}
use mvfs.Sohash.Hazard.{blank_hp}
use mvfs.Sohash.Chain.Look.{look}
use mvfs.Sohash.Init.{sized, InitArgs, bare, build, init_hashtable}
use mvfs.Sohash.Invariant.{IsReady}
use mvfs.Sohash.Invariant.Install.{Refused}

All-replicate : (sz n : ℕ) → All (Fits sz) (replicate n none)
All-replicate sz zero = tt
All-replicate sz (suc n) = (tt, All-replicate sz n)

slot_of-blank : (n i j : ℕ) → slot_of (get_elem? (replicate n none) i) j ≡ none
slot_of-blank zero i j = refl
slot_of-blank (suc n) zero j = refl
slot_of-blank (suc n) (suc i) j = slot_of-blank n i j

-- The table with the sentinel of bucket 0 in its list and no slot set.
abbrev start : ℕ → ℕ → Table
start segments size = record (bare 3 segments size) { chain = sentinel_node 2 0 ∷ [] }

module _ (segments size : ℕ) (pos : 0 < size) (two : 2 ≤ segments * size)
    (most : segments * size ≤ 2 ^ 31) where
  start-HasShape : HasShape (start segments size)
  start-HasShape = record { sz_pos = pos; fits = All-replicate size segments }

  start-slot : (k : ℕ) → slot (start segments size) k ≡ none
  unfolding slot
  start-slot k = slot_of-blank segments (k / size) (k % size)

  wide : capacity (start segments size) ≡ segments * size
  wide = ap (λ n. n * size) (length-replicate {A = Option Segment} segments none)

  -- The first bucket set in that table.
  module _ (t' : Table)
      (done : IsInstalled
        (start segments size)
        start-HasShape
        0
        (omega (arith, two, wide))
        2
        true
        t') where
    abbrev made : InitArgs → Table
    made args = record t' {
      hp_list = record blank_hp { in_use = false } ∷ [];
      hazard_ptrs_total = 3;
      keys_unique = args.keys_unique;
      current_size = 2;
      regularkey_count = 0;
      hash_state = active;
      allocs = t'.allocs + 1;
    }

    made-slot : (args : InitArgs) (k : ℕ) → slot (made args) k ≡ slot t' k
    unfolding slot
    made-slot args k = refl

    one_entry : List Entry
    one_entry = map (place_entry 2 (0 / size) (0 % size)) (sentinel_node 2 0 ∷ [])

    made-chain : (args : InitArgs) → (made args).chain ≡ one_entry
    unfolding one_entry
    made-chain args = done.chained

    one_entry-HasHead : HasHead one_entry 2 (sentinelkey 0)
    unfolding one_entry
    one_entry-HasHead = inl (refl, refl)

    first_slot : (args : InitArgs) → slot (made args) 0 ≡ some 2
    first_slot args = made-slot args 0 ∙ done.here ∙ ap (λ o. some (get_or o 2)) (start-slot 0)

    made-heads :
        (args : InitArgs) (h a : ℕ)
        → slot (made args) h ≡ some a
        → HasHead (made args).chain a (sentinelkey h)
    made-heads args zero a e =
        subst (λ l. HasHead l a (sentinelkey 0)) (sym (made-chain args))
          (subst (λ x. HasHead one_entry x (sentinelkey 0))
            (some-injective _ _ (sym (first_slot args) ∙ e)) one_entry-HasHead)
    made-heads args (suc h) a e =
        let blank =
          made-slot args (suc h) ∙ done.there (suc h) (omega arith) ∙ start-slot (suc h) in
        cc

    made-IsReady : (args : InitArgs) → IsReady (made args)
    unfolding slot one_entry
    made-IsReady args =
        let room : capacity (made args) ≡ segments * size = rw (done.wide, done.sz) wide in
        let one = made-chain args in
        record {
          valid = record {
            shape = record { sz_pos = done.shaped.sz_pos; fits = done.shaped.fits };
            small = omega (arith, room, most);
            sorted = subst IsSorted (sym one) (tt, tt);
            distinct = subst IsDistinct (sym one) (tt, tt);
            fresh =
                subst (All (λ e. e.addr < t'.allocs + 1)) (sym one) (omega (arith, done.later), tt);
            heads = λ h a lt e. made-heads args h a e;
            root = (2, first_slot args);
          };
          active = refl;
          bits = 1;
          word = omega arith;
          size = refl;
          room = omega (arith, room, two);
        }

    made-empty : (args : InitArgs) (k : ℕ) → look (regularkey k) (made args).chain ≡ none
    unfolding one_entry look
    made-empty args k =
        let odd = regularkey_odd k in
        let even = sentinelkey_even 0 (omega arith) in
        ap (look (regularkey k)) (made-chain args) ∙ ground (arith, odd, even)

-- What an initialization comes to.
pub data Initialized (env : Host) (args : InitArgs) (run : Run (Option Table)) : Type 0 where
  made_table :
      (t : Table)
      → run ≡ ok (some t)
      → IsReady t
      → t.keys_unique ≡ args.keys_unique
      → ((k : ℕ) → look (regularkey k) t.chain ≡ none)
      → Initialized env args run
  no_memory : run ≡ ok none → Refused env → Initialized env args run

build-Initialized :
    (env : Host) (args : InitArgs) (segments size : ℕ)
    → 0 < size
    → 2 ≤ segments * size
    → segments * size ≤ 2 ^ 31
    → Initialized env args (build env args segments size)
unfolding build
build-Initialized env args segments size pos two most =
    elim (Bool-cases (env.grant 0 && env.grant 1 && env.grant 2)) [
      | inr no_mem ↦ no_memory (rw no_mem) (refused_of no_mem)
      | inl mem ↦
          let (t', err, run, cases) =
            set_bucket-cases (start segments size) (start-HasShape segments size pos two most) 0
              (omega (arith, two, wide segments size pos two most)) env 2 true in
          elim cases [
            | inr (e, same, no_mem) ↦ no_memory (rw (mem, run, ◌>>=◌, e)) (3, no_mem)
            | inl (e, done) ↦ elim (Bool-cases (env.grant t'.allocs)) [
              | inr no_mem ↦ no_memory (rw (mem, run, ◌>>=◌, e, no_mem)) (t'.allocs, no_mem)
              | inl more ↦
                  made_table (made segments size pos two most t' done args)
                    (rw (mem, run, ◌>>=◌, e, more))
                    (made-IsReady segments size pos two most t' done args) refl
                    (made-empty segments size pos two most t' done args)
            ]
          ]
    ]
  where
    refused_of : env.grant 0 && env.grant 1 && env.grant 2 ≡ false → Refused env
    refused_of e = elim (Bool-cases (env.grant 0)) [
      | inr refusal ↦ (0, refusal)
      | inl a ↦ elim (Bool-cases (env.grant 1)) [
        | inr refusal ↦ (1, refusal)
        | inl b ↦ (2, ground (arith, a, b, e))
      ]
    ]

-- With the default sizes and the callbacks that are required, the initialization ends: either it gives
-- a valid, active table with the given uniqueness of keys and a size of 2 within its slots, in
-- which no lookup of a regular key finds an entry, or it gives nothing, and the host is one that
-- refuses some request for memory.
pub init_hashtable-Initialized :
    (env : Host) (args : InitArgs)
    → args.num_segments ≡ none
    → args.segment_sz ≡ none
    → args.has_data_free ≡ true
    → args.has_compute_key ≡ true
    → args.keys_unique || args.has_verify ≡ true
    → Initialized env args (init_hashtable env args)
unfolding init_hashtable sized build
init_hashtable-Initialized env args segs sz free key verify =
    let guard : (not args.has_data_free
          || not args.has_compute_key
          || (not args.keys_unique && not args.has_verify))
        ≡ false =
      ground (arith, free, key, verify) in
    let run : init_hashtable env args ≡ build env args 511 511 = rw (guard, segs, sz) in
    subst (Initialized env args) (sym run)
      (build-Initialized env args 511 511 (omega arith) (omega arith) (omega arith))
