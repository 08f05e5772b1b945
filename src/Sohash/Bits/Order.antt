-- ===== src/Sohash/Bits/Order.antt =====
-- Where the reversed keys of mvfs_sohash_table.c lie: the sentinel of a bucket, the regular keys of
-- the bucket behind it, and the sentinels of the other buckets outside; the parent bucket before.
use native.Mathlib.Nat.{
  pow-suc, pow-le-pow_right, mod-lt, mod-eq_of_lt, div-eq_of_lt, div-eq_of_lt-le, div-add-mod',
  add-mul-mod_self_right, mul-add-mod_self_right, le-div_iff_mul-le, div-lt_iff_lt-mul,
}
use native.Mathlib.Decide.{dec_lt}
use mvfs.Prelude.{
  ℕ, zero, suc, ◌+◌, ◌-◌, ◌*◌, ◌/◌, ◌%◌, ◌^◌, ◌≤◌, ◌<◌, ◌≡◌, ◌≢◌, ◌⊎◌, inl, inr, refl, arith, ap,
  ◌∙◌, sym, some,
}
use mvfs.Sohash.Bits.{reverse_bit, set_msb, regularkey, sentinelkey, unsetmsb_loop, unsetmsb}
use mvfs.Sohash.Bits.Mirror.{
  mirror, mirror-lt, mirror-mirror, mirror-split, two-pow-pos, two-pow-add, reverse_bit-mirror,
}

-- Reversing the bits of a 32-bit word twice gives the word.
reverse_bit-reverse_bit : (x : ℕ) → x < 2 ^ 32 → reverse_bit (reverse_bit x) ≡ x
reverse_bit-reverse_bit x h =
    rw (reverse_bit-mirror (reverse_bit x), reverse_bit-mirror x) (mirror-mirror 32 x h)

reverse_bit-lt : (x : ℕ) → reverse_bit x < 2 ^ 32
reverse_bit-lt x = rw (reverse_bit-mirror x) (mirror-lt 32 x)

mirror-zero : (n : ℕ) → mirror n 0 ≡ 0
unfolding mirror
mirror-zero zero = refl
mirror-zero (suc n) = omega (arith, mirror-zero n)

mirror-injective : (n x y : ℕ) → x < 2 ^ n → y < 2 ^ n → mirror n x ≡ mirror n y → x ≡ y
mirror-injective n x y hx hy q = sym (mirror-mirror n x hx) ∙ ap (mirror n) q ∙ mirror-mirror n y hy

mirror-whole : (i j x : ℕ) → i + j ≡ 32 → mirror 32 x ≡ mirror (i + j) x
mirror-whole i j x e = ap (λ n. mirror n x) (sym e)

mul-lt-step : (a b m : ℕ) → a < b → a * m + m ≤ b * m
mul-lt-step a b m h = grind arith

one-lt-two-pow : (j : ℕ) → 0 < j → 1 < 2 ^ j
one-lt-two-pow zero h = absurd (omega arith)
one-lt-two-pow (suc j) h = omega (arith, pow-suc 2 j, two-pow-pos j)

mirror-pos : (n x : ℕ) → x < 2 ^ n → 0 < x → 0 < mirror n x
mirror-pos n x h pos = go (mirror n x) refl
  where
    go : (y : ℕ) → mirror n x ≡ y → 0 < y
    go zero e = absurd (omega (arith, mirror-mirror n x h, ap (mirror n) e, mirror-zero n))
    go (suc y) e = omega arith

-- A word in two parts, and its mirror image in two parts.
mirror-parts :
    (i j x : ℕ) → i + j ≡ 32 → mirror 32 x ≡ mirror i (x % 2 ^ i) * 2 ^ j + mirror j (x / 2 ^ i)
mirror-parts i j x e =
    let whole = sym (div-add-mod' x (2 ^ i)) in
    mirror-whole i j x e
    ∙ ap (mirror (i + j)) whole
    ∙ mirror-split i j (x / 2 ^ i) (x % 2 ^ i) (mod-lt x (two-pow-pos i))

mod-set_msb : (w c m k : ℕ) → w ≡ c * m → (k % w + w) % m ≡ k % m
mod-set_msb w c m k e =
    ap (λ (t : ℕ). (k % w + t) % m) e
    ∙ add-mul-mod_self_right (k % w) c m
    ∙ sym (
        ap (λ (t : ℕ). t % m) (sym (div-add-mod' k w) ∙ regroup)
        ∙ mul-add-mod_self_right (k / w * c) m (k % w))
  where
    regroup : k / w * w + k % w ≡ k / w * c * m + k % w
    regroup = ap (λ (t : ℕ). k / w * t + k % w) e ∙ omega arith

-- The key with its top bit set, in a table of `2 ^ i` buckets.
module _ (i j k : ℕ) (e : i + j ≡ 32) (small : i ≤ 31) where
  word : 2 ^ i * 2 ^ j ≡ 2 ^ 32
  word = sym (two-pow-add i j) ∙ ap (λ (n : ℕ). 2 ^ n) e

  set_msb-mod : set_msb k % 2 ^ i ≡ k % 2 ^ i
  unfolding set_msb
  set_msb-mod =
      mod-set_msb (2 ^ 31) (2 ^ (31 - i)) (2 ^ i) k
        (ap (λ (n : ℕ). 2 ^ n) {x = 31} {y = 31 - i + i} (omega arith) ∙ two-pow-add (31 - i) i)

  set_msb-div : (0 < set_msb k / 2 ^ i) × (set_msb k / 2 ^ i < 2 ^ j)
  unfolding set_msb
  set_msb-div = (
    (le-div_iff_mul-le (two-pow-pos i)).1
        (omega (arith, pow-le-pow_right {n = 2} (omega arith) {i = i} {j = 31} small)),
    (div-lt_iff_lt-mul (two-pow-pos i)).1 (omega (arith, word)),
  )

  -- A sentinel key of the table is a multiple of `2 ^ j`.
  sentinelkey-mul : (h : ℕ) → h < 2 ^ i → sentinelkey h ≡ mirror i h * 2 ^ j
  unfolding sentinelkey
  sentinelkey-mul h lt =
      rw (reverse_bit-mirror h, mirror-parts i j h e, mod-eq_of_lt lt, div-eq_of_lt lt)
        (omega (arith, mirror-zero j))

  regularkey-parts : regularkey k ≡ mirror i (k % 2 ^ i) * 2 ^ j + mirror j (set_msb k / 2 ^ i)
  unfolding regularkey
  regularkey-parts =
      rw (reverse_bit-mirror (set_msb k), mirror-parts i j (set_msb k) e, set_msb-mod)

  -- In a table of `2 ^ i` buckets, with `i` up to 31 and `i + j` the 32 bits, the regular key of `k`
  -- is above the sentinel key of its bucket `k % 2 ^ i`, by less than `2 ^ j`.
  pub sentinelkey-lt-regularkey :
      (sentinelkey (k % 2 ^ i) < regularkey k) × (regularkey k < sentinelkey (k % 2 ^ i) + 2 ^ j)
  sentinelkey-lt-regularkey =
      let s = sentinelkey-mul (k % 2 ^ i) (mod-lt k (two-pow-pos i)) in
      let tail = mirror j (set_msb k / 2 ^ i) in
      let pos = mirror-pos j (set_msb k / 2 ^ i) set_msb-div.1 set_msb-div.0 in
      let lt = mirror-lt j (set_msb k / 2 ^ i) in
      (omega (arith, s, regularkey-parts, pos), omega (arith, s, regularkey-parts, lt))

  -- In such a table the sentinel key of any other bucket is below that of the bucket of `k`, or above
  -- the regular key of `k`: no sentinel stands between.
  pub bucket_region :
      (h : ℕ)
      → h < 2 ^ i
      → h ≢ k % 2 ^ i
      → (sentinelkey h < sentinelkey (k % 2 ^ i)) ⊎ (regularkey k < sentinelkey h)
  bucket_region h lt ne =
      let a = mirror i h in
      let b = mirror i (k % 2 ^ i) in
      let here = sentinelkey-mul h lt in
      let home = sentinelkey-mul (k % 2 ^ i) (mod-lt k (two-pow-pos i)) in
      let tail = mirror-lt j (set_msb k / 2 ^ i) in
      elim (dec_lt a b) [
        | yes p ↦ inl (omega (arith, here, home, mul-lt-step a b (2 ^ j) p, two-pow-pos j))
        | no p ↦
            let apart : a ≢ b =
              λ q. ne (mirror-injective i h (k % 2 ^ i) lt (mod-lt k (two-pow-pos i)) q) in
            inr (omega (arith, here, regularkey-parts, tail, mul-lt-step b a (2 ^ j) (omega arith)))
      ]

-- The loop of `unsetmsb` stops at the top bit.
unsetmsb_loop-parts :
    (n x : ℕ)
    → 0 < x
    → x < 2 ^ n
    → (k r : ℕ) × (k < n) × (r < 2 ^ k) × (x ≡ 2 ^ k + r) × (unsetmsb_loop n x ≡ some r)
unfolding unsetmsb_loop
unsetmsb_loop-parts zero x pos lt = absurd (omega arith)
unsetmsb_loop-parts (suc n) x pos lt = elim (dec_lt x (2 ^ n)) [
  | yes below ↦
      let (k, r, kn, rk, parts, run) = unsetmsb_loop-parts n x pos below in
      let clear : x / 2 ^ n ≡ 0 = div-eq_of_lt below in (k, r, omega arith, rk, parts, rw clear run)
  | no above ↦
      let top : x / 2 ^ n ≡ 1 =
        div-eq_of_lt-le (2 ^ n) (omega arith) (omega (arith, pow-suc 2 n)) in
      (n, x - 2 ^ n, omega arith, omega (arith, pow-suc 2 n), omega arith, rw top refl)
]

-- For a bucket index above 0 and in 32 bits, `unsetmsb` ends; the parent is a smaller index, its
-- sentinel key is smaller, and it is below the power of two that is the top bit of the index.
pub unsetmsb-parent :
    (h : ℕ)
    → 0 < h
    → h < 2 ^ 32
    → (p k : ℕ) × (unsetmsb h ≡ some p)
      × (p < h)
      × (sentinelkey p < sentinelkey h)
      × (p < 2 ^ k)
      × (2 ^ k ≤ h)
unfolding unsetmsb sentinelkey
unsetmsb-parent h pos lt =
    let (k, r, kn, rk, parts, run) = unsetmsb_loop-parts 32 h pos lt in
    let j = 32 - k in
    let child =
      ap (mirror 32) (parts ∙ omega arith)
      ∙ mirror-whole k j (1 * 2 ^ k + r) (omega arith)
      ∙ mirror-split k j 1 r rk in
    let parent =
      mirror-whole k j r (omega arith)
      ∙ ap (mirror (k + j)) {x = r} {y = 0 * 2 ^ k + r} (omega arith)
      ∙ mirror-split k j 0 r rk in
    let one = mirror-pos j 1 (one-lt-two-pow j (omega arith)) (omega arith) in
    (
      r,
      k,
      nonzero r run,
      omega (arith, two-pow-pos k),
      rw (reverse_bit-mirror r, reverse_bit-mirror h)
          (omega (arith, child, parent, one, mirror-zero j)),
      rk,
      omega arith,
    )
  where
    nonzero : (r : ℕ) → unsetmsb_loop 32 h ≡ some r → unsetmsb h ≡ some r
    nonzero r run = ground arith

-- Regular keys are odd, sentinel keys are even.
pub regularkey_odd : (k : ℕ) → regularkey k % 2 ≡ 1
unfolding regularkey set_msb mirror
regularkey_odd k =
    rw (reverse_bit-mirror (set_msb k), mirror-parts 31 1 (set_msb k) refl)
      (omega (arith, top, mirror_one))
  where
    top : set_msb k / 2 ^ 31 ≡ 1
    top = omega arith

    mirror_one : mirror 1 (set_msb k / 2 ^ 31) ≡ 1
    mirror_one = rw top

pub sentinelkey_even : (h : ℕ) → h < 2 ^ 31 → sentinelkey h % 2 ≡ 0
unfolding sentinelkey
sentinelkey_even h lt =
    rw (reverse_bit-mirror h, mirror-parts 31 1 h refl) (omega (arith, mirror_none))
  where
    mirror_none : mirror 1 (h / 2 ^ 31) ≡ 0
    mirror_none = ap (mirror 1) {y = 0} (omega arith) ∙ mirror-zero 1
