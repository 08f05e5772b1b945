-- ===== src/Sohash/Bits/Mirror.antt =====
-- The bits of a word read backwards, and the loop of `sohash_reverse_bit` as that function.
use Prim.Native.Nat.add
use native.Mathlib.Nat.{pow-suc, pow-le-pow_right}
use mvfs.Prelude.{ℕ, zero, suc, ◌+◌, ◌*◌, ◌/◌, ◌%◌, ◌^◌, ◌≤◌, ◌<◌, ◌≡◌, refl, arith, ap, ◌∙◌}
use mvfs.Sohash.Bits.{reverse_loop, reverse_bit}

-- The low `n` bits of `x`, in the reverse order.
unfoldable pub mirror : ℕ → ℕ → ℕ
mirror zero x = 0
mirror (suc n) x = x % 2 * 2 ^ n + mirror n (x / 2)

pub two-pow-pos : (n : ℕ) → 0 < 2 ^ n
two-pow-pos zero = omega arith
two-pow-pos (suc n) = rw pow-suc (omega (arith, two-pow-pos n))

pub two-pow-add : (m n : ℕ) → 2 ^ (m + n) ≡ 2 ^ m * 2 ^ n
two-pow-add zero n = rw add.zero (omega arith)
two-pow-add (suc m) n =
    ap (λ (t : ℕ). 2 ^ t) (add.suc m n)
    ∙ pow-suc 2 (m + n)
    ∙ ap (λ (t : ℕ). t * 2) (two-pow-add m n)
    ∙ omega (arith, ap (λ (t : ℕ). t * 2 ^ n) (pow-suc 2 m))

pub mirror-lt : (n x : ℕ) → mirror n x < 2 ^ n
unfolding mirror
mirror-lt zero x = omega arith
mirror-lt (suc n) x = rw pow-suc (ground (arith, mirror-lt n (x / 2), bit_times (x % 2) (2 ^ n)))
  where
    bit_times : (b m : ℕ) → b ≤ 1 → b * m ≤ m
    bit_times zero m h = omega arith
    bit_times (suc zero) m h = omega arith
    bit_times (suc (suc b)) m h = absurd (omega arith)

-- The top bit becomes the lowest one.
mirror-top : (n b x : ℕ) → x < 2 ^ n → b ≤ 1 → mirror (suc n) (b * 2 ^ n + x) ≡ mirror n x * 2 + b
unfolding mirror
mirror-top zero b x h hb = omega arith
mirror-top (suc n) b x h hb =
    let step = mirror-top n b (x / 2) (omega (arith, pow-suc 2 n)) hb in
    let low : (b * 2 ^ suc n + x) % 2 ≡ x % 2 = rw pow-suc (omega arith) in
    let high : (b * 2 ^ suc n + x) / 2 ≡ b * 2 ^ n + x / 2 = rw pow-suc (omega arith) in
    rw (low, high) (rw (step, pow-suc) (omega arith))

-- Reading backwards twice gives the word back.
pub mirror-mirror : (n x : ℕ) → x < 2 ^ n → mirror n (mirror n x) ≡ x
unfolding mirror
mirror-mirror zero x h = omega arith
mirror-mirror (suc n) x h =
    mirror-top n (x % 2) (mirror n (x / 2)) (mirror-lt n (x / 2)) (omega arith)
    ∙ omega (arith, mirror-mirror n (x / 2) (omega (arith, pow-suc 2 n)))

-- The low `i` bits of a word are the high bits of its mirror image.
pub mirror-split :
    (i j q a : ℕ) → a < 2 ^ i → mirror (i + j) (q * 2 ^ i + a) ≡ mirror i a * 2 ^ j + mirror j q
unfolding mirror
mirror-split zero j q a h = rw (add.zero, rearrange) (omega arith)
  where
    rearrange : q * 2 ^ 0 + a ≡ q
    rearrange = omega arith
mirror-split (suc i) j q a h =
    let low : (q * 2 ^ suc i + a) % 2 ≡ a % 2 = rw pow-suc (omega arith) in
    let high : (q * 2 ^ suc i + a) / 2 ≡ q * 2 ^ i + a / 2 = rw pow-suc (omega arith) in
    let step = mirror-split i j q (a / 2) (omega (arith, pow-suc 2 i)) in
    rw add.suc (rw (low, high) (rw (step, two-pow-add i j) (grind arith)))

-- The loop adds the mirror image below what it has, and no step wraps.
reverse_loop-mirror :
    (n m out x : ℕ) → m + n ≡ 32 → out < 2 ^ m → reverse_loop n out x ≡ out * 2 ^ n + mirror n x
unfolding reverse_loop mirror
reverse_loop-mirror zero m out x e h = omega arith
reverse_loop-mirror (suc n) m out x e h =
    let fits = pow-le-pow_right {n = 2} (omega arith) {i = suc m} {j = 32} (omega arith) in
    let exact : (out * 2 % 2 ^ 32 + x % 2) % 2 ^ 32 ≡ out * 2 + x % 2 =
      omega (arith, pow-suc 2 m) in
    rw exact (
      reverse_loop-mirror n (suc m) (out * 2 + x % 2) (x / 2) (omega arith)
        (omega (arith, pow-suc 2 m))
      ∙ rw pow-suc (omega arith))

pub reverse_bit-mirror : (x : ℕ) → reverse_bit x ≡ mirror 32 x
unfolding reverse_bit
reverse_bit-mirror x = reverse_loop-mirror 32 0 0 x refl (omega arith) ∙ omega arith
