-- ===== src/Prelude/Counts.antt =====
-- How often a number stands in a list, sums over the slots of an array, and functions changed at one
-- place.
use Prim.Native.Nat.{ℕ, zero, suc, ◌+◌, ◌-◌, ◌<◌, ◌≤◌}
use mathlib.Core.Path.{◌≡◌, refl}
use mathlib.Core.Logic.{◌≢◌, inl, inr}
use mathlib.Core.List.{List, [], ◌∷◌, ◌++◌}
use native.Mathlib.Omega.{arith}
use mvfs.Prelude.Tests.{◌==◌, if◌then◌else◌, Bool-cases, ==_iff}

abbrev pub count : ℕ → List ℕ → ℕ
count a [] = 0
count a (b ∷ rest) = (if b == a then 1 else 0) + count a rest

-- Without the first occurrence.
abbrev pub erase : ℕ → List ℕ → List ℕ
erase a [] = []
erase a (b ∷ rest) = if b == a then rest else b ∷ erase a rest

pub count-erase :
    (a b : ℕ) (l : List ℕ) → count a (erase b l) ≡ (if a == b then count a l - 1 else count a l)
count-erase a b [] = ground arith
count-erase a b (c ∷ l) = ground (arith, count-erase a b l)

pub count-append : (a : ℕ) (l m : List ℕ) → count a (l ++ m) ≡ count a l + count a m
count-append a [] m = omega arith
count-append a (b ∷ l) m = omega (arith, count-append a l m)

abbrev pub update {ℓ} : {A : Type ℓ} → (ℕ → A) → ℕ → A → ℕ → A
update f a v b = if b == a then v else f b

-- The sum over the places below a bound.
abbrev pub total : (ℕ → ℕ) → ℕ → ℕ
total f zero = 0
total f (suc n) = f n + total f n

pub total-eq : (f g : ℕ → ℕ) (n : ℕ) → ((i : ℕ) → i < n → f i ≡ g i) → total f n ≡ total g n
total-eq f g zero h = refl
total-eq f g (suc n) h = omega (arith, h n (omega arith), total-eq f g n (λ i p. h i (omega arith)))

pub total-change :
    (f g : ℕ → ℕ) (d n : ℕ)
    → ((i : ℕ) → i ≢ d → f i ≡ g i)
    → d < n
    → total f n + g d ≡ total g n + f d
total-change f g d zero h p = elim p [ ]
total-change f g d (suc n) h p = elim (Bool-cases (n == d)) [
  | inl y ↦
      let e : n ≡ d = (==_iff n d).0 y in
      let r : total f n ≡ total g n =
        total-eq f g n (λ i q. h i (λ z. absurd (omega (arith, z, e)))) in
      rw (← e) (omega arith)
  | inr m ↦
      let ne : n ≢ d = λ z. ground (arith, z) in
      omega (arith, h n ne, total-change f g d n h (ground (arith, ne)))
]

pub le-total : (f : ℕ → ℕ) (d n : ℕ) → d < n → f d ≤ total f n
le-total f d zero h = elim h [ ]
le-total f d (suc n) h = elim (Bool-cases (n == d)) [
  | inl y ↦ rw (← (==_iff n d).0 y) (omega arith)
  | inr m ↦ omega (arith, le-total f d n (ground arith))
]
