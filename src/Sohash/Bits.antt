-- ===== src/Sohash/Bits.antt =====
-- Keys of the split-ordered hash (mvfs_sohash_table.c): `sohash_reverse_bit`, `sohash_regularkey`,
-- `sohash_sentinelkey`, `unsetmsb`. A key is a 32-bit word; the masks are written as arithmetic.
pub mod Mirror
pub mod Order
use mvfs.Prelude.{
  ℕ, zero, suc, ◌+◌, ◌-◌, ◌*◌, ◌/◌, ◌%◌, ◌^◌, Option, none, some, ◌==◌, if◌then◌else◌,
}

-- The loop of `sohash_reverse_bit`, by the rounds left: `output = (output << 1) + (input & 1)` in
-- 32 bits, and `input >>= 1`.
unfoldable pub reverse_loop : ℕ → ℕ → ℕ → ℕ
reverse_loop zero output input = output
reverse_loop (suc n) output input =
    reverse_loop n ((output * 2 % 2 ^ 32 + input % 2) % 2 ^ 32) (input / 2)

unfoldable pub reverse_bit : ℕ → ℕ
reverse_bit input = reverse_loop 32 0 input

-- `input | 0x80000000`.
unfoldable pub set_msb : ℕ → ℕ
set_msb input = input % 2 ^ 31 + 2 ^ 31

unfoldable pub regularkey : ℕ → ℕ
regularkey key = reverse_bit (set_msb key)

unfoldable pub sentinelkey : ℕ → ℕ
sentinelkey key = reverse_bit key

-- The loop of `unsetmsb`, by the bits left: the mask is `2 ^ k`, and `none` stands for the mask
-- that has been shifted out, with which the loop would not end.
unfoldable pub unsetmsb_loop : ℕ → ℕ → Option ℕ
unsetmsb_loop zero input = none
unsetmsb_loop (suc k) input =
    let rest = unsetmsb_loop k input in
    if input / 2 ^ k % 2 == 0 then rest else some (input - 2 ^ k)

-- `SOHASH_GETPARENT_BUCKET`.
unfoldable pub unsetmsb : ℕ → Option ℕ
unsetmsb input = let top = unsetmsb_loop 32 input in if input == 0 then some 0 else top
