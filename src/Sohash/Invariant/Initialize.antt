-- ===== src/Sohash/Invariant/Initialize.antt =====
-- `sohash_initialize_bucket` keeps the invariant and the contents, and ends within 33 rounds.
use native.Mathlib.Nat.{pow-le-pow_right}
use mvfs.Sohash.Invariant.Sentinel.{Outcome-from, Outcome-run, add_sentinel-Outcome}
use mvfs.Prelude.{
  ℕ, zero, suc, ◌^◌, ◌≤◌, ◌<◌, ◌≡◌, refl, ◌∙◌, true, false, Option, none, some, arith, Bool-cases,
  Option-cases, inl, inr, ◌==◌,
}
use mvfs.Sohash.Bits.{sentinelkey, unsetmsb}
use mvfs.Sohash.Bits.Order.{unsetmsb-parent}
use mvfs.Sohash.Types.{Run, ok, ◌>>=◌, Table, Host, is_active}
use mvfs.Sohash.Buckets.{add_sentinel, initialize_bucket}
use mvfs.Sohash.Buckets.Slots.{capacity, slot, get_bucket-slot}
use mvfs.Sohash.Invariant.{IsValid, Keeps-refl}
use mvfs.Sohash.Invariant.Install.{Outcome}

-- The rounds of `sohash_initialize_bucket` on a bucket that is not set.
module _ (fuel : ℕ) (env : Host) (t : Table) (h p i : ℕ) (v : IsValid t) (lt : h < capacity t)
    (active : is_active t.hash_state ≡ true) (empty : slot t h ≡ none) (pos : 0 < h)
    (parent : unsetmsb h ≡ some p) (less : p < h) where
  not_root : (h == 0) ≡ false
  not_root = ground arith

  parent_is_set :
      (a : ℕ)
      → slot t p ≡ some a
      → initialize_bucket (suc fuel) env t h i ≡ add_sentinel env t h a i
  unfolding initialize_bucket
  parent_is_set a full = rw (
    active,
    get_bucket-slot t v.shape h lt,
    empty,
    ◌>>=◌,
    not_root,
    parent,
    get_bucket-slot t v.shape p (omega arith),
    full,
  )

  parent_is_not_set :
      (t' : Table) (r : Option ℕ)
      → slot t p ≡ none
      → initialize_bucket fuel env t p i ≡ ok (t', r)
      → initialize_bucket (suc fuel) env t h i
        ≡ elim r [ none ↦ ok (t', none) | some a ↦ add_sentinel env t' h a i ]
  unfolding initialize_bucket
  parent_is_not_set t' r unset run = rw (
    active,
    get_bucket-slot t v.shape h lt,
    empty,
    ◌>>=◌,
    not_root,
    parent,
    get_bucket-slot t v.shape p (omega (arith, less, lt)),
    unset,
    run,
  )

-- The bucket after its parent.
module _ (env : Host) (t : Table) (h p i : ℕ) (lt : h < capacity t) (empty : slot t h ≡ none)
    (less : p < h) (key_less : sentinelkey p < sentinelkey h) where
  child-Outcome :
      (run : Run (Table × Option ℕ)) (o : Outcome env t p run) (r : Option ℕ)
      → o.result ≡ r
      → Outcome env t h
          (elim r [ none ↦ ok (o.after, none) | some a ↦ add_sentinel env o.after h a i ])
  child-Outcome run o none e = record {
    after = o.after;
    result = none;
    runs = refl;
    valid = o.valid;
    keeps = o.keeps;
    later = o.later;
    absent = o.absent;
    above = λ k q. o.above k (omega (arith, less, q));
    refused = λ up _. o.refused up e;
    slotted = λ a e. cc;
  }
  child-Outcome run o (some a) e =
      let wide : capacity o.after ≡ capacity t = rw (o.keeps.wide, o.keeps.sz) in
      let p_lt : p < capacity o.after = omega (arith, less, lt, wide) in
      Outcome-from env t o.after h _ o.keeps (λ k q. o.above k (omega (arith, less, q))) o.later
        o.absent
        (add_sentinel-Outcome env o.after h a p i o.valid (omega (arith, lt, wide))
          (o.above h less ∙ empty) (o.valid.heads p a p_lt (o.slotted a e)) key_less)

positive : (t : Table) (h : ℕ) → slot t h ≡ none → IsValid t → 0 < h
positive t zero empty v = (let set = v.root.1 in cc)
positive t (suc h) empty v = omega arith

fewer : (k n h : ℕ) → 2 ^ k ≤ h → h < 2 ^ n → k < n
fewer k n h low high =
    let grows : n ≤ k → 2 ^ n ≤ 2 ^ k = λ le. pow-le-pow_right (omega arith) le in
    ground (arith, grows)

-- From a valid table, for a bucket below the capacity and fuel above the number of its index's bits,
-- the set-up of the bucket and of its parents ends without a panic and without an access outside an
-- array. The table after it is valid, has the same sizes, and every lookup of a regular key in its list
-- gives the same; the slots of higher buckets are as before. The result, if any, is in the bucket's
-- slot; in an active table, with a host that refuses no request for memory, there is one.
pub initialize_bucket-Outcome :
    (fuel n : ℕ) (env : Host) (t : Table) (h i : ℕ)
    → n < fuel
    → h < 2 ^ n
    → IsValid t
    → h < capacity t
    → Outcome env t h (initialize_bucket fuel env t h i)
unfolding initialize_bucket
initialize_bucket-Outcome zero n env t h i enough below v lt = absurd (omega (arith, enough))
initialize_bucket-Outcome (suc fuel) n env t h i enough below v lt =
    elim (Bool-cases (is_active t.hash_state)) [
      | inr idle ↦ record {
        after = t;
        result = none;
        runs = rw idle;
        valid = v;
        keeps = Keeps-refl t;
        later = omega arith;
        absent = λ a q p. p;
        above = λ k _. refl;
        refused = λ up _. cc;
        slotted = λ a e. cc;
      }
      | inl active ↦ elim (Option-cases (slot t h)) [
        | inr (a, full) ↦ record {
          after = t;
          result = some a;
          runs = rw (active, get_bucket-slot t v.shape h lt, full, ◌>>=◌);
          valid = v;
          keeps = Keeps-refl t;
          later = omega arith;
          absent = λ a q p. p;
          above = λ k _. refl;
          refused = λ _ q. cc;
          slotted = λ b e. full ∙ e;
        }
        | inl empty ↦
            let pos = positive t h empty v in
            let (p, k, parent, less, key_less, p_below, k_le) =
              unsetmsb-parent h pos (omega (arith, lt, v.small)) in
            let step = parent_is_set fuel env t h p i v lt active empty pos parent less in
            let p_lt : p < capacity t = omega (arith, less, lt) in
            elim (Option-cases (slot t p)) [
              | inr (a, full) ↦
                  Outcome-run env t h _ _ (step a full)
                    (add_sentinel-Outcome env t h a p i v lt empty (v.heads p a p_lt full) key_less)
              | inl unset ↦
                  let o =
                    initialize_bucket-Outcome fuel k env t p i
                      (omega (arith, enough, fewer k n h k_le below)) p_below v p_lt in
                  Outcome-run env t h _ _
                    (parent_is_not_set fuel env t h p i v lt active empty pos parent less o.after
                      o.result unset o.runs)
                    (child-Outcome env t h p i lt empty less key_less _ o o.result refl)
            ]
      ]
    ]
