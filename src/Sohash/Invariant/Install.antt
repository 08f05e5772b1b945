-- ===== src/Sohash/Invariant/Install.antt =====
-- `sohash_set_bucket` keeps the invariant, for the address of an entry with the bucket's key.
use native.Mathlib.Decide.{ℕ_discrete}
use mathlib.Core.Option.{get_or, some-injective}
use mathlib.Core.Path.{subst}
use mvfs.Prelude.{
  ℕ, ◌+◌, ◌/◌, ◌%◌, ◌≤◌, ◌<◌, ◌≡◌, ◌≢◌, refl, ap, sym, ◌∙◌, Bool, true, false, List, map, Option,
  none, some, arith, All, inl, inr, if◌then◌else◌,
}
use mvfs.Sohash.Bits.{sentinelkey, regularkey}
use mvfs.Sohash.Types.{Run, ok, ◌>>=◌, Entry, Table, Host, Errno, is_active}
use mvfs.Sohash.Chain.Walk.{IsSorted}
use mvfs.Sohash.Chain.Heads.{
  HasHead, IsDistinct, HasHead-map, All-lt-map, All-ne-map, IsDistinct-map, IsSorted-map,
}
use mvfs.Sohash.Chain.Sorted.{All-imp}
use mvfs.Sohash.Chain.Look.{look, look-map}
use mvfs.Sohash.Buckets.{set_bucket, place_entry}
use mvfs.Sohash.Buckets.Slots.{capacity, slot, IsInstalled, set_bucket-cases}
use mvfs.Sohash.Invariant.{IsValid, Keeps}

-- More requests for memory keep the invariant.
IsValid-allocs : (t : Table) (n : ℕ) → t.allocs ≤ n → IsValid t → IsValid (record t { allocs = n })
unfolding slot
IsValid-allocs t n le v = record {
  shape = record { sz_pos = v.shape.sz_pos; fits = v.shape.fits };
  small = v.small;
  sorted = v.sorted;
  distinct = v.distinct;
  fresh = All-imp (λ e. e.addr < t.allocs) (λ e. e.addr < n) t.chain (λ e q. omega arith) v.fresh;
  heads = v.heads;
  root = v.root;
}

place_entry-same :
    (a s b : ℕ) (e : Entry)
    → ((place_entry a s b e).addr ≡ e.addr)
      × ((place_entry a s b e).reverse_so_key ≡ e.reverse_so_key)
      × ((place_entry a s b e).content ≡ e.content)
place_entry-same a s b e = ground arith

-- The list with the indices of one entry set.
abbrev marked : Bool → ℕ → ℕ → ℕ → List Entry → List Entry
marked inserted a s b es = if inserted then map (place_entry a s b) es else es

module _ (a s b : ℕ) (es : List Entry) where
  keys_same :
      (e : Entry)
      → ((place_entry a s b e).addr ≡ e.addr)
        × ((place_entry a s b e).reverse_so_key ≡ e.reverse_so_key)
  keys_same e = ((place_entry-same a s b e).0, (place_entry-same a s b e).1)

  marked-IsSorted : (inserted : Bool) → IsSorted es → IsSorted (marked inserted a s b es)
  marked-IsSorted true p = IsSorted-map (place_entry a s b) keys_same es p
  marked-IsSorted false p = p

  marked-IsDistinct : (inserted : Bool) → IsDistinct es → IsDistinct (marked inserted a s b es)
  marked-IsDistinct true p = IsDistinct-map (place_entry a s b) keys_same es p
  marked-IsDistinct false p = p

  marked-absent :
      (inserted : Bool) (c : ℕ)
      → All (λ y. c ≢ y.addr) es
      → All (λ y. c ≢ y.addr) (marked inserted a s b es)
  marked-absent true c p = All-ne-map (place_entry a s b) keys_same c c es refl p
  marked-absent false c p = p

  marked-lt :
      (inserted : Bool) (n : ℕ)
      → All (λ e. e.addr < n) es
      → All (λ e. e.addr < n) (marked inserted a s b es)
  marked-lt true n p = All-lt-map (place_entry a s b) keys_same n es p
  marked-lt false n p = p

  marked-HasHead :
      (inserted : Bool) (c key : ℕ) → HasHead es c key → HasHead (marked inserted a s b es) c key
  marked-HasHead true c key p = HasHead-map (place_entry a s b) keys_same es c key p
  marked-HasHead false c key p = p

  look-marked : (inserted : Bool) (key : ℕ) → look key (marked inserted a s b es) ≡ look key es
  look-marked true key = look-map (place_entry a s b) (place_entry-same a s b) key es
  look-marked false key = refl

-- The host refuses some request for memory, made in the run at hand or not.
abbrev pub Refused : Host → Type 0
Refused env = (n : ℕ) × (env.grant n ≡ false)

-- What the set-up of the bucket `h` comes to: higher buckets stay as they are, addresses from before are not taken, the invariant and the contents are kept, and an address
-- that is returned stands in the bucket's slot.
pub record Outcome (env : Host) (t : Table) (h : ℕ) (run : Run (Table × Option ℕ)) : Type 0 where
  pub after : Table
  pub result : Option ℕ
  pub runs : run ≡ ok (after, result)
  pub valid : IsValid after
  pub keeps : Keeps t after
  pub later : t.allocs ≤ after.allocs
  pub absent :
      (a : ℕ) → a < t.allocs → All (λ y. a ≢ y.addr) t.chain → All (λ y. a ≢ y.addr) after.chain
  pub above : (k : ℕ) → h < k → slot after k ≡ slot t k
  pub refused : is_active t.hash_state ≡ true → result ≡ none → Refused env
  pub slotted : (a : ℕ) → result ≡ some a → slot after h ≡ some a

abbrev pub answer : ℕ → Table × Option Errno → Run (Table × Option ℕ)
answer a (t, error) = ok (t, elim error [ none ↦ some a | some _ ↦ none ])

allocs-slot : (t : Table) (n k : ℕ) → slot (record t { allocs = n }) k ≡ slot t k
unfolding slot
allocs-slot t n k = refl

Keeps-allocs : (t : Table) (n : ℕ) → Keeps t (record t { allocs = n })
Keeps-allocs t n = record {
  sz = refl;
  wide = refl;
  state = refl;
  size = refl;
  unique = refl;
  count = refl;
  looks = λ k. refl;
}

module _ (t t' : Table) (h a : ℕ) (inserted : Bool) (v : IsValid t) (lt : h < capacity t)
    (empty : slot t h ≡ none) (done : IsInstalled t v.shape h lt a inserted t') where
  abbrev list : List Entry
  list = marked inserted a (h / t.segment_sz) (h % t.segment_sz) t.chain

  filled : slot t' h ≡ some a
  filled = done.here ∙ ap (λ o. some (get_or o a)) empty

  head_kept : (k c : ℕ) → HasHead t.chain c (sentinelkey k) → HasHead t'.chain c (sentinelkey k)
  head_kept k c p =
      subst (λ l. HasHead l c (sentinelkey k)) (sym done.chained)
        (marked-HasHead a (h / t.segment_sz) (h % t.segment_sz) t.chain inserted c (sentinelkey k)
          p)

  same_capacity : capacity t' ≡ capacity t
  same_capacity = rw (done.wide, done.sz)

  installed-heads :
      HasHead t.chain a (sentinelkey h)
      → (k c : ℕ) → k < capacity t'
      → slot t' k ≡ some c
      → HasHead t'.chain c (sentinelkey k)
  installed-heads head k c below e = elim (ℕ_discrete k h) [
    | yes same ↦
        let c_is : a ≡ c = some-injective _ _ (sym filled ∙ ap (slot t') (sym same) ∙ e) in
        subst (λ x. HasHead t'.chain c (sentinelkey x)) (sym same)
          (subst (λ x. HasHead t'.chain x (sentinelkey h)) c_is (head_kept h a head))
    | no differ ↦
        head_kept k c (v.heads k c (omega (arith, same_capacity)) (sym (done.there k differ) ∙ e))
  ]

  installed-root : (c : ℕ) × (slot t' 0 ≡ some c)
  installed-root = elim (ℕ_discrete 0 h) [
    | yes same ↦ (a, ap (slot t') same ∙ filled)
    | no differ ↦ (v.root.0, done.there 0 differ ∙ v.root.1)
  ]

  installed-IsValid : HasHead t.chain a (sentinelkey h) → IsValid t'
  installed-IsValid head =
      let si = h / t.segment_sz in
      let bi = h % t.segment_sz in
      record {
        shape = done.shaped;
        small = omega (arith, same_capacity, v.small);
        sorted =
            subst IsSorted (sym done.chained) (marked-IsSorted a si bi t.chain inserted v.sorted);
        distinct =
            subst IsDistinct (sym done.chained)
              (marked-IsDistinct a si bi t.chain inserted v.distinct);
        fresh =
            All-imp (λ e. e.addr < t.allocs) (λ e. e.addr < t'.allocs) t'.chain
              (λ e q. omega (arith, done.later))
              (subst (All (λ e. e.addr < t.allocs)) (sym done.chained)
                (marked-lt a si bi t.chain inserted t.allocs v.fresh));
        heads = installed-heads head;
        root = installed-root;
      }

  installed-Keeps : Keeps t t'
  installed-Keeps = record {
    sz = done.sz;
    wide = done.wide;
    state = done.state;
    size = done.size;
    unique = done.unique;
    count = done.count;
    looks = λ k.
        ap (look (regularkey k)) done.chained
        ∙ look-marked a (h / t.segment_sz) (h % t.segment_sz) t.chain inserted (regularkey k);
  }

-- The set-up of a slot for an entry with the bucket's key has such an outcome.
pub install-Outcome :
    (env : Host) (t : Table) (h a : ℕ) (inserted : Bool)
    → IsValid t
    → h < capacity t
    → slot t h ≡ none
    → HasHead t.chain a (sentinelkey h)
    → Outcome env t h (set_bucket env t h a inserted >>= answer a)
install-Outcome env t h a inserted v lt empty head =
    let (t', err, run, cases) = set_bucket-cases t v.shape h lt env a inserted in
    elim cases [
      | inr (e, same, no_mem) ↦ record {
        after = record t { allocs = t.allocs + 1 };
        result = none;
        runs = rw (run, ◌>>=◌, e, same);
        valid = IsValid-allocs t (t.allocs + 1) (omega arith) v;
        keeps = Keeps-allocs t (t.allocs + 1);
        later = omega arith;
        absent = λ b q p. p;
        above = λ k q. allocs-slot t (t.allocs + 1) k;
        refused = λ _ _. (t.allocs, no_mem);
        slotted = λ b q. cc;
      }
      | inl (e, done) ↦ record {
        after = t';
        result = some a;
        runs = rw (run, ◌>>=◌, e);
        valid = installed-IsValid t t' h a inserted v lt empty done head;
        keeps = installed-Keeps t t' h a inserted v lt empty done;
        later = done.later;
        absent = λ b q p.
            subst (All (λ y. b ≢ y.addr)) (sym done.chained)
              (marked-absent a (h / t.segment_sz) (h % t.segment_sz) t.chain inserted b p);
        above = λ k q. done.there k (omega arith);
        refused = λ _ q. cc;
        slotted = λ b q. filled t t' h a inserted v lt empty done ∙ q;
      }
    ]
