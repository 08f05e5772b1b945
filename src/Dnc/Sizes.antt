-- ===== src/Dnc/Sizes.antt =====
-- The size of the hash table (mvfs_dncops.c: mvfs_find_dnchashsize).
use native.Mathlib.Nat.{mod-eq-sub-mod, mod-eq_of_lt}
use mvfs.Prelude.{
  ◌∙◌, leb→le, ◌⊎◌, ==_iff, sym, ap, inr, inl, arith, ◌*◌, Bool-cases, refl, ◌≢◌, ◌<◌, ◌≤◌, ◌≡◌,
  ◌-◌, ℕ, zero, suc, Bool, true, false, Option, none, some, ◌==◌, if◌then◌else◌, ◌+◌, ◌/◌, ◌%◌, leb,
}

abbrev pub mfs_dnchashmax : ℕ
mfs_dnchashmax = 18181

abbrev pub mfs_dnchashmin : ℕ
mfs_dnchashmin = 509

abbrev pub mfs_dnc_avechain : ℕ
mfs_dnc_avechain = 10

-- `isprime` after the loop from i on, with that many rounds left.
unfoldable pub no_factor : ℕ → ℕ → ℕ → Bool
no_factor num i zero = true
no_factor num i (suc rounds) =
    let rest = no_factor num (suc i) rounds in if num % i == 0 then false else rest

-- The rounds of `for (i = 2; i <= num / 2; i++)`.
unfoldable pub isprime : ℕ → Bool
isprime num = no_factor num 2 (num / 2 - 1)

unfoldable pub next_prime : ℕ → ℕ → Option ℕ
next_prime zero num = none
next_prime (suc fuel) num =
    let rest = next_prime fuel (num + 1) in if isprime num then some num else rest

-- The fuel is the distance to the largest size.
unfoldable pub find_dnchashsize : ℕ → Option ℕ
find_dnchashsize maxentry =
    let num = maxentry / mfs_dnc_avechain in
    if leb num mfs_dnchashmin
    then some mfs_dnchashmin
    else if leb mfs_dnchashmax num
    then some mfs_dnchashmax
    else next_prime mfs_dnchashmax num

abbrev pub IsPrime : ℕ → Type 0
IsPrime n = (2 ≤ n) × ((i : ℕ) → 2 ≤ i → i < n → n % i ≢ 0)

no_factor-none :
    (num i rounds : ℕ)
    → no_factor num i rounds ≡ true
    → (j : ℕ) → i ≤ j
    → j < i + rounds
    → num % j ≢ 0
unfolding no_factor
no_factor-none num i zero q j p lt = absurd (omega arith)
no_factor-none num i (suc rounds) q j p lt = elim (Bool-cases (num % i == 0)) [
  | inl y ↦ absurd (cc)
  | inr n ↦ elim (Bool-cases (j == i)) [
    | inl y ↦ λ z. ground (arith, z, ap (λ k. num % k) ((==_iff j i).0 y))
    | inr m ↦ no_factor-none num (suc i) rounds (ground arith) j (ground arith) (omega arith)
  ]
]

-- A number above the half leaves a rest.
above_half : (n i : ℕ) → n < 2 * i → i < n → n % i ≢ 0
above_half n i p q z = absurd (
    omega (
      arith,
      sym (mod-eq-sub-mod {n = n} {m = i} (omega arith)) ∙ z,
      mod-eq_of_lt {n = n - i} {m = i} (omega arith),
    ))

isprime-IsPrime : (n : ℕ) → 2 ≤ n → isprime n ≡ true → IsPrime n
unfolding isprime
isprime-IsPrime n two q = (
  two,
  λ i lo hi. elim (Bool-cases (leb i (n / 2))) [
    | inl y ↦ no_factor-none n 2 (n / 2 - 1) q i lo (ground arith)
    | inr m ↦ above_half n i (ground arith) hi
  ],
)

smallest_prime : isprime mfs_dnchashmin ≡ true
unfolding isprime no_factor
smallest_prime = refl

largest_prime : isprime mfs_dnchashmax ≡ true
unfolding isprime no_factor
largest_prime = refl

not_both : (a b : ℕ) → a ≡ b → isprime a ≡ false → isprime b ≡ true → ⊥
not_both a b p q r = cc (ap isprime p)

-- The first prime from a number on, when one is known to come within the fuel.
next_prime-finds :
    (fuel num p : ℕ)
    → 2 ≤ num
    → num ≤ p
    → p < num + fuel
    → isprime p ≡ true
    → (r : ℕ) × (next_prime fuel num ≡ some r) × (num ≤ r) × (r ≤ p) × IsPrime r
unfolding next_prime
next_prime-finds zero num p two le lt pr = absurd (omega arith)
next_prime-finds (suc fuel) num p two le lt pr = elim (Bool-cases (isprime num)) [
  | inl y ↦ (num, rw y refl, omega arith, le, isprime-IsPrime num two y)
  | inr n ↦
      let ne : num ≢ p = λ z. absurd (not_both num p z n pr) in
      let (r, q, lo, hi, good) =
        next_prime-finds fuel (num + 1) p (omega arith) (ground (arith, ne)) (omega arith) pr in
      (r, rw n q, omega arith, hi, good)
]

-- The search for a size ends within its fuel, with a prime between the smallest and the largest size
-- that is no less than a tenth of the entries, but for the largest size.
pub find_dnchashsize-IsPrime :
    (maxentry : ℕ)
    → (r : ℕ) × (find_dnchashsize maxentry ≡ some r)
      × IsPrime r
      × (mfs_dnchashmin ≤ r)
      × (r ≤ mfs_dnchashmax)
      × ((maxentry / mfs_dnc_avechain ≤ r) ⊎ (r ≡ mfs_dnchashmax))
unfolding find_dnchashsize
find_dnchashsize-IsPrime maxentry =
    let num = maxentry / 10 in
    elim (Bool-cases (leb num mfs_dnchashmin)) [
      | inl y ↦ (
        mfs_dnchashmin,
        rw y refl,
        isprime-IsPrime mfs_dnchashmin (omega arith) smallest_prime,
        omega arith,
        omega arith,
        inl (leb→le _ _ y),
      )
      | inr n ↦ elim (Bool-cases (leb mfs_dnchashmax num)) [
        | inl y ↦ (
          mfs_dnchashmax,
          rw (n, y) refl,
          isprime-IsPrime mfs_dnchashmax (omega arith) largest_prime,
          omega arith,
          omega arith,
          inr refl,
        )
        | inr m ↦
            let (r, q, lo, hi, good) =
              next_prime-finds mfs_dnchashmax num mfs_dnchashmax (ground arith) (ground arith)
                (ground arith) largest_prime in
            (r, rw (n, m) q, good, ground arith, hi, inl lo)
      ]
    ]
