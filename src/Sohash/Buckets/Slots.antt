-- ===== src/Sohash/Buckets/Slots.antt =====
-- The slots of the bucket table: what `sohash_get_bucket` reads, and what `sohash_set_bucket` leaves.
use native.Mathlib.Nat.{div-lt_iff_lt-mul, mod-lt, div-add-mod'}
use native.Mathlib.Decide.{ℕ_discrete}
use mathlib.Core.Option.{some-injective, get_or}
use mathlib.Core.Path.{subst}
use mvfs.Prelude.{
  get_elem?-lt, inr, inl, length-replicate, Bool-cases, ◌⊎◌, replicate, ℕ, zero, suc, ◌+◌, ◌*◌, ◌/◌,
  ◌%◌, ◌^◌, ◌≤◌, ◌<◌, ◌≡◌, ◌≢◌, refl, ap, sym, ◌∙◌, Bool, false, List, [], ◌∷◌, map, Option, none,
  some, ◌==◌, if◌then◌else◌, arith, All, get_elem?, set, length, length-set, get_elem?-set_self,
  get_elem?-set_ne,
}
use mvfs.Sohash.Types.{ok, Host, Errno, Segment, Table}
use mvfs.Sohash.Buckets.{segment_at, get_bucket, fill, fill_bucket, set_bucket, place_entry}

-- A segment that is there has a slot for each of its buckets.
abbrev pub Fits : ℕ → Option Segment → Type 0
Fits sz none = Unit
Fits sz (some seg) = length seg ≡ sz

pub record HasShape (t : Table) : Type 0 where
  pub sz_pos : 0 < t.segment_sz
  pub fits : All (Fits t.segment_sz) t.hashtable

abbrev pub capacity : Table → ℕ
capacity t = length t.hashtable * t.segment_sz

-- The slot of a segment and a bucket index; a segment that is not there has empty slots.
abbrev pub slot_of : Option (Option Segment) → ℕ → Option ℕ
slot_of none b = none
slot_of (some none) b = none
slot_of (some (some seg)) b = elim (get_elem? seg b) [ none ↦ none | some slot ↦ slot ]

abbrev slot_at : List (Option Segment) → ℕ → ℕ → Option ℕ
slot_at table sz h = slot_of (get_elem? table (h / sz)) (h % sz)

unfoldable pub slot : Table → ℕ → Option ℕ
slot t h = slot_at t.hashtable t.segment_sz h

-- A write to one slot of a segment, read back there and elsewhere.
module _ (table : List (Option Segment)) (seg : Segment) (sz h : ℕ) (v : Option ℕ) where
  abbrev written : List (Option Segment)
  written = set table (h / sz) (some (set seg (h % sz) v))

  slot_at-written : h / sz < length table → h % sz < length seg → slot_at written sz h ≡ v
  slot_at-written p q =
      rw (get_elem?-set_self table (h / sz) (some (set seg (h % sz) v)) p)
        (rw (get_elem?-set_self seg (h % sz) v q, slot_of))

  slot_at-written_near :
      (k : ℕ)
      → h / sz < length table
      → k / sz ≡ h / sz
      → k % sz ≢ h % sz
      → slot_at written sz k ≡ slot_of (some (some seg)) (k % sz)
  slot_at-written_near k p e ne =
      rw (e, get_elem?-set_self table (h / sz) (some (set seg (h % sz) v)) p)
        (rw (get_elem?-set_ne seg v (λ (q : h % sz ≡ k % sz). ne (sym q)), slot_of))

  slot_at-written_far : (k : ℕ) → k / sz ≢ h / sz → slot_at written sz k ≡ slot_at table sz k
  slot_at-written_far k ne =
      rw (get_elem?-set_ne table (some (set seg (h % sz) v)) (λ (q : h / sz ≡ k / sz). ne (sym q)))

All-get_elem? :
    {A : Type 0} (P : A → Type 0) (xs : List A) (i : ℕ) (x : A)
    → All P xs
    → get_elem? xs i ≡ some x
    → P x
All-get_elem? P [] i x p e = cc
All-get_elem? P (y ∷ ys) zero x p e = subst P (some-injective _ _ e) p.0
All-get_elem? P (y ∷ ys) (suc i) x p e = All-get_elem? P ys i x p.1 e

All-set :
    {A : Type 0} (P : A → Type 0) (xs : List A) (i : ℕ) (x : A)
    → All P xs
    → P x
    → All P (set xs i x)
All-set P [] i x p q = tt
All-set P (y ∷ ys) zero x p q = (q, p.1)
All-set P (y ∷ ys) (suc i) x p q = (p.0, All-set P ys i x p.1 q)

-- A new segment has empty slots.
slot_of-empty : (n b : ℕ) → slot_of (some (some (replicate n none))) b ≡ none
slot_of-empty zero b = refl
slot_of-empty (suc n) zero = refl
slot_of-empty (suc n) (suc b) = slot_of-empty n b

fill-get_or : (o : Option ℕ) (a : ℕ) → fill o a ≡ some (get_or o a)
fill-get_or none a = refl
fill-get_or (some b) a = refl

same_index : (k h sz : ℕ) → k / sz ≡ h / sz → k % sz ≡ h % sz → k ≡ h
same_index k h sz d m =
    sym (div-add-mod' k sz)
    ∙ ap (λ q. q * sz + k % sz) d
    ∙ ap (λ r. h / sz * sz + r) m
    ∙ div-add-mod' h sz

module _ (t : Table) (shape : HasShape t) (h : ℕ) (lt : h < capacity t) where
  si : ℕ
  si = h / t.segment_sz

  bi : ℕ
  bi = h % t.segment_sz

  in_table : h / t.segment_sz < length t.hashtable
  in_table = (div-lt_iff_lt-mul shape.sz_pos).1 lt

  in_segment : h % t.segment_sz < t.segment_sz
  in_segment = mod-lt h shape.sz_pos

  nonzero : (t.segment_sz == 0) ≡ false
  nonzero = ground (arith, shape.sz_pos)

  -- In a table whose segments all have the segment size, a read of a bucket below the capacity ends
  -- without an access outside an array, and gives what the slot holds; nothing, where there is no
  -- segment yet.
  pub get_bucket-slot : get_bucket t h ≡ ok (slot t h)
  unfolding get_bucket slot
  get_bucket-slot = let (s, e) = get_elem?-lt t.hashtable (h / t.segment_sz) in_table in read s e
    where
      read :
          (s : Option Segment)
          → get_elem? t.hashtable (h / t.segment_sz) ≡ some s
          → get_bucket t h ≡ ok (slot t h)
      read none e = rw (nonzero, e, segment_at, get_bucket, slot)
      read (some seg) e =
          let fits : length seg ≡ t.segment_sz =
            All-get_elem? (Fits t.segment_sz) t.hashtable (h / t.segment_sz) (some seg) shape.fits
              e in
          let (v, found) = get_elem?-lt seg (h % t.segment_sz) (omega (arith, in_segment)) in
          ground (arith, nonzero, e, found)

  -- What the slots are after the compare-and-swap of the slot of `h`.
  pub record IsInstalled (a : ℕ) (inserted : Bool) (t' : Table) : Type 0 where
    pub shaped : HasShape t'
    pub wide : length t'.hashtable ≡ length t.hashtable
    pub here : slot t' h ≡ some (get_or (slot t h) a)
    pub there : (k : ℕ) → k ≢ h → slot t' k ≡ slot t k
    pub chained : t'.chain ≡ (
        if inserted
        then map (place_entry a (h / t.segment_sz) (h % t.segment_sz)) t.chain
        else t.chain)
    pub later : t.allocs ≤ t'.allocs
    pub sz : t'.segment_sz ≡ t.segment_sz
    pub state : t'.hash_state ≡ t.hash_state
    pub size : t'.current_size ≡ t.current_size
    pub unique : t'.keys_unique ≡ t.keys_unique
    pub hps : t'.hp_list ≡ t.hp_list
    pub count : t'.regularkey_count ≡ t.regularkey_count

  -- The table that results, for the segment `seg` that is there or new.
  installed : Segment → ℕ → ℕ → Bool → Table
  installed seg allocs a inserted = record t {
    hashtable =
        set t.hashtable (h / t.segment_sz) (
          some
            (set seg (h % t.segment_sz) (fill (slot_of (some (some seg)) (h % t.segment_sz)) a)));
    chain =
        (if inserted
          then map (place_entry a (h / t.segment_sz) (h % t.segment_sz)) t.chain
          else t.chain);
    sentinelkey_count =
        (if inserted then (t.sentinelkey_count + 1) % 2 ^ 32 else t.sentinelkey_count);
    allocs = allocs;
  }

  installed-IsInstalled :
      (seg : Segment) (allocs a : ℕ) (inserted : Bool)
      → length seg ≡ t.segment_sz
      → slot_of (some (some seg)) (h % t.segment_sz) ≡ slot t h
      → ((k : ℕ)
          → k / t.segment_sz ≡ h / t.segment_sz
          → slot_of (some (some seg)) (k % t.segment_sz) ≡ slot t k)
      → t.allocs ≤ allocs
      → IsInstalled a inserted (installed seg allocs a inserted)
  unfolding installed slot
  installed-IsInstalled seg allocs a inserted fits old same le = record {
    shaped = record {
      sz_pos = shape.sz_pos;
      fits =
          All-set (Fits t.segment_sz) t.hashtable _ _ shape.fits
            (length-set seg (h % t.segment_sz) _ ∙ fits);
    };
    wide = length-set t.hashtable _ _;
    here =
        slot_at-written t.hashtable seg t.segment_sz h _ in_table (omega (arith, in_segment))
        ∙ ap (λ o. fill o a) old
        ∙ fill-get_or (slot t h) a;
    there = λ k ne. elim (ℕ_discrete (k / t.segment_sz) (h / t.segment_sz)) [
      | yes near ↦
          slot_at-written_near t.hashtable seg t.segment_sz h _ k in_table near
            (λ e. ne (same_index k h t.segment_sz near e))
          ∙ same k near
      | no far ↦ slot_at-written_far t.hashtable seg t.segment_sz h _ k far
    ];
    chained = refl;
    later = le;
    sz = refl;
    state = refl;
    size = refl;
    unique = refl;
    hps = refl;
    count = refl;
  }

  fill_bucket-installed :
      (seg : Segment) (allocs a : ℕ) (inserted : Bool)
      → length seg ≡ t.segment_sz
      → fill_bucket (record t { allocs = allocs }) seg h a inserted
        ≡ ok (installed seg allocs a inserted, none)
  unfolding fill_bucket installed
  fill_bucket-installed seg allocs a inserted fits =
      let (v, found) = get_elem?-lt seg (h % t.segment_sz) (omega (arith, in_segment)) in
      ground (arith, found)

  -- `sohash_set_bucket` returns; it fills the slot, or it fails for want of memory and changes
  -- nothing.
  pub set_bucket-cases :
      (env : Host) (a : ℕ) (inserted : Bool)
      → (t' : Table) × (err : Option Errno) × (set_bucket env t h a inserted ≡ ok (t', err))
        × (((err ≡ none) × IsInstalled a inserted t')
            ⊎ ((err ≡ some Errno.enomem)
                × (t' ≡ record t { allocs = t.allocs + 1 })
                × (env.grant t.allocs ≡ false)))
  unfolding set_bucket slot
  set_bucket-cases env a inserted =
      let (s, e) = get_elem?-lt t.hashtable (h / t.segment_sz) in_table in cases s e
    where
      cases :
          (s : Option Segment)
          → get_elem? t.hashtable (h / t.segment_sz) ≡ some s
          → (t' : Table) × (err : Option Errno) × (set_bucket env t h a inserted ≡ ok (t', err))
            × (((err ≡ none) × IsInstalled a inserted t')
                ⊎ ((err ≡ some Errno.enomem)
                    × (t' ≡ record t { allocs = t.allocs + 1 })
                    × (env.grant t.allocs ≡ false)))
      cases (some seg) e =
          let fits : length seg ≡ t.segment_sz =
            All-get_elem? (Fits t.segment_sz) t.hashtable (h / t.segment_sz) (some seg) shape.fits
              e in
          (
            installed seg t.allocs a inserted,
            none,
            rw (nonzero, e, segment_at, set_bucket)
                (fill_bucket-installed seg t.allocs a inserted fits),
            inl (
              refl,
              installed-IsInstalled seg t.allocs a inserted fits (rw (e, slot))
                  (λ k q. rw (q, e, slot)) (omega arith),
            ),
          )
      cases none e = elim (Bool-cases (env.grant t.allocs)) [
        | inl mem ↦
            let seg : Segment = replicate t.segment_sz none in
            (
              installed seg (t.allocs + 1) a inserted,
              none,
              rw (nonzero, e, mem, segment_at, set_bucket)
                  (fill_bucket-installed seg (t.allocs + 1) a inserted
                    (length-replicate t.segment_sz none)),
              inl (
                refl,
                installed-IsInstalled seg (t.allocs + 1) a inserted
                    (length-replicate t.segment_sz none)
                    (rw (e, slot) (slot_of-empty t.segment_sz _))
                    (λ k q. rw (q, e, slot) (slot_of-empty t.segment_sz _)) (omega arith),
              ),
            )
        | inr no_mem ↦ (
          record t { allocs = t.allocs + 1 },
          some Errno.enomem,
          rw (nonzero, e, no_mem, segment_at, set_bucket),
          inr (refl, refl, no_mem),
        )
      ]
