-- ===== src/Prelude/Bits.antt =====
-- Binary digits of native numbers, and the laws of the native conjunction and disjunction.
use Prim.Native.Nat.{
  ◌^◌, ℕ, zero, suc, ◌+◌, ◌*◌, ◌/◌, ◌%◌, ◌≤◌, ◌<◌, min, max, bit_and, bit_or, digits,
  bit_and-bitwise, bit_or-bitwise,
}
use mathlib.Core.Path.{◌≡◌, refl, sym, ap, ◌∙◌}
use mathlib.Core.Logic.{◌↔◌, ◌⊎◌, inl, inr}
use mathlib.Core.Bool.{Bool, true, false, ◌&&◌, ◌||◌}
use native.Mathlib.Omega.{arith}
use native.Mathlib.Numerals.{unary_clauses}
use mvfs.Prelude.Tests.{◌==◌}

-- Digit i of a number, from the lowest.
abbrev pub testbit : ℕ → ℕ → Bool
testbit n zero = n % 2 == 1
testbit n (suc i) = testbit (n / 2) i

abbrev and_digits : ℕ → ℕ → ℕ → ℕ
and_digits n a b = digits (λ b. zero) min n a b

abbrev or_digits : ℕ → ℕ → ℕ → ℕ
or_digits n a b = digits (λ b. b) max n a b

-- Fuel above the first number is not used.
and_digits-fuel : (n m a b : ℕ) → a ≤ n → a ≤ m → and_digits n a b ≡ and_digits m a b
and_digits-fuel zero zero a b p q = refl
and_digits-fuel zero (suc m) zero b p q = refl
and_digits-fuel zero (suc m) (suc a) b p q = absurd (omega arith)
and_digits-fuel (suc n) zero zero b p q = refl
and_digits-fuel (suc n) zero (suc a) b p q = absurd (omega arith)
and_digits-fuel (suc n) (suc m) zero b p q = refl
and_digits-fuel (suc n) (suc m) (suc a) b p q =
    omega (arith, and_digits-fuel n m (suc a / 2) (b / 2) (omega arith) (omega arith))

or_digits-fuel : (n m a b : ℕ) → a ≤ n → a ≤ m → or_digits n a b ≡ or_digits m a b
or_digits-fuel zero zero a b p q = refl
or_digits-fuel zero (suc m) zero b p q = refl
or_digits-fuel zero (suc m) (suc a) b p q = absurd (omega arith)
or_digits-fuel (suc n) zero zero b p q = refl
or_digits-fuel (suc n) zero (suc a) b p q = absurd (omega arith)
or_digits-fuel (suc n) (suc m) zero b p q = refl
or_digits-fuel (suc n) (suc m) (suc a) b p q =
    omega (arith, or_digits-fuel n m (suc a / 2) (b / 2) (omega arith) (omega arith))

-- Both operations work digit by digit.
bit_and_step : (a b : ℕ) → bit_and a b ≡ bit_and (a / 2) (b / 2) * 2 + min (a % 2) (b % 2)
bit_and_step zero b = omega (arith, bit_and-bitwise 0 b, bit_and-bitwise 0 (b / 2))
bit_and_step (suc a) b = omega (
  arith,
  bit_and-bitwise (suc a) b,
  bit_and-bitwise (suc a / 2) (b / 2),
  and_digits-fuel a (suc a / 2) (suc a / 2) (b / 2) (omega arith) (omega arith),
)

bit_or_step : (a b : ℕ) → bit_or a b ≡ bit_or (a / 2) (b / 2) * 2 + max (a % 2) (b % 2)
bit_or_step zero b = omega (arith, bit_or-bitwise 0 b, bit_or-bitwise 0 (b / 2))
bit_or_step (suc a) b = omega (
  arith,
  bit_or-bitwise (suc a) b,
  bit_or-bitwise (suc a / 2) (b / 2),
  or_digits-fuel a (suc a / 2) (suc a / 2) (b / 2) (omega arith) (omega arith),
)

and_half : (a b : ℕ) → bit_and a b / 2 ≡ bit_and (a / 2) (b / 2)
and_half a b = omega (arith, bit_and_step a b)

or_half : (a b : ℕ) → bit_or a b / 2 ≡ bit_or (a / 2) (b / 2)
or_half a b = omega (arith, bit_or_step a b)

and_low : (a b : ℕ) → bit_and a b % 2 ≡ min (a % 2) (b % 2)
and_low a b = omega (arith, bit_and_step a b)

or_low : (a b : ℕ) → bit_or a b % 2 ≡ max (a % 2) (b % 2)
or_low a b = omega (arith, bit_or_step a b)

or_digit : (x y : ℕ) → x < 2 → y < 2 → (max x y == 1) ≡ ((x == 1) || (y == 1))
or_digit x y p q = ground arith

and_digit : (x y : ℕ) → x < 2 → y < 2 → (min x y == 1) ≡ ((x == 1) && (y == 1))
and_digit x y p q = ground arith

testbit-bit_and : (i a b : ℕ) → testbit (bit_and a b) i ≡ (testbit a i && testbit b i)
testbit-bit_and zero a b = rw (and_low a b) (and_digit (a % 2) (b % 2) (omega arith) (omega arith))
testbit-bit_and (suc i) a b = rw (and_half a b) (testbit-bit_and i (a / 2) (b / 2))

pub testbit-bit_or : (i a b : ℕ) → testbit (bit_or a b) i ≡ (testbit a i || testbit b i)
testbit-bit_or zero a b = rw (or_low a b) (or_digit (a % 2) (b % 2) (omega arith) (omega arith))
testbit-bit_or (suc i) a b = rw (or_half a b) (testbit-bit_or i (a / 2) (b / 2))

pub testbit-zero : (i : ℕ) → testbit 0 i ≡ false
testbit-zero zero = refl
testbit-zero (suc i) = testbit-zero i

low_set : (a : ℕ) → testbit a 0 ≡ true → a % 2 ≡ 1
low_set a h = ground arith

low_of : (a : ℕ) → a % 2 ≡ 1 → testbit a 0 ≡ true
low_of a h = ground arith

mod_two : (a : ℕ) → (a % 2 ≡ 0) ⊎ (a % 2 ≡ 1)
mod_two a = ground arith

-- A number is contained in another if the other has its digits.
contained_fuel :
    (n a b : ℕ) → a ≤ n → ((i : ℕ) → testbit a i ≡ true → testbit b i ≡ true) → bit_and a b ≡ a
contained_fuel zero zero b p h = omega (arith, bit_and-bitwise 0 b)
contained_fuel zero (suc a) b p h = absurd (omega arith)
contained_fuel (suc n) zero b p h = omega (arith, bit_and-bitwise 0 b)
contained_fuel (suc n) (suc a) b p h =
    let ih = contained_fuel n (suc a / 2) (b / 2) (omega arith) (λ i. h (suc i)) in
    elim (mod_two (suc a)) [
      | inl z ↦ omega (arith, bit_and_step (suc a) b)
      | inr o ↦ let q = low_set b (h 0 (low_of (suc a) o)) in omega (arith, bit_and_step (suc a) b)
    ]

both : (x y : Bool) → (x && y) ≡ x → x ≡ true → y ≡ true
both x y e h = ground arith

-- The test of a mask: the masked number is the mask just when each digit of the mask is set.
pub bit_and-eq_iff :
    (a b : ℕ) → (bit_and a b ≡ a) ↔ ((i : ℕ) → testbit a i ≡ true → testbit b i ≡ true)
bit_and-eq_iff a b = (
  λ e i h.
      both (testbit a i) (testbit b i) (sym (testbit-bit_and i a b) ∙ ap (λ x. testbit x i) e) h,
  contained_fuel a a b (omega arith),
)

two_pow-suc : (k : ℕ) → 2 ^ suc k ≡ 2 * 2 ^ k
two_pow-suc k = simp unary_clauses (omega arith)

two_pow-half : (k : ℕ) → 2 ^ suc k / 2 ≡ 2 ^ k
two_pow-half k = omega (arith, two_pow-suc k)

-- The digits of a power of two.
pub testbit-two_pow : (k i : ℕ) → testbit (2 ^ k) i ≡ (i == k)
testbit-two_pow zero zero = refl
testbit-two_pow zero (suc i) = testbit-zero i ∙ ground arith
testbit-two_pow (suc k) zero = let e = two_pow-suc k in ground arith
testbit-two_pow (suc k) (suc i) = rw (two_pow-half k) (testbit-two_pow k i ∙ ground arith)

and_comm_fuel : (n a b : ℕ) → a ≤ n → b ≤ n → bit_and a b ≡ bit_and b a
and_comm_fuel zero zero zero p q = refl
and_comm_fuel zero zero (suc b) p q = absurd (omega arith)
and_comm_fuel zero (suc a) b p q = absurd (omega arith)
and_comm_fuel (suc n) a b p q = omega (
  arith,
  bit_and_step a b,
  bit_and_step b a,
  and_comm_fuel n (a / 2) (b / 2) (omega arith) (omega arith),
)

pub bit_and_comm : (a b : ℕ) → bit_and a b ≡ bit_and b a
bit_and_comm a b = and_comm_fuel (a + b) a b (omega arith) (omega arith)

pub testbit-eighth : (a i : ℕ) → testbit (a / 8) i ≡ testbit a (suc (suc (suc i)))
testbit-eighth a i = ap (λ x. testbit x i) (omega arith)
