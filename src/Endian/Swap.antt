-- ===== src/Endian/Swap.antt =====
-- The macros reverse the bytes of a word, so both builds compute the same function.
use libant.Common.{ℕ, ◌+◌, ◌*◌, ◌/◌, ◌%◌, ◌^◌, ◌<◌, ◌≡◌, arith, bit_and}
use libant.Common.{and_shifted, and_low, or_above}
use libant.Endian.{ant_byte_swap_16, ant_byte_swap_32, ant_byte_swap_64}
use libant.Endian.{masked_left, masked_right}
use libant.Endian.Bytes.{le_bytes, be_value}

-- `x & (0xff << k)`
and_byte : (k x : ℕ) → bit_and x (0xff * 2 ^ k) ≡ x / 2 ^ k % 256 * 2 ^ k
and_byte k x = ground (arith, and_shifted k 0xff x, and_low 8 (x / 2 ^ k))

pub ant_byte_swap_16_lem : (v : ℕ) → v < 2 ^ 16 → ant_byte_swap_16 v ≡ be_value (le_bytes 2 v)
unfolding ant_byte_swap_16
ant_byte_swap_16_lem v h =
    rw (byte_1, byte_0, or_above 8 (v % 256) (v / 2 ^ 8 % 256) (omega arith)) (omega arith)
  where
    byte_1 : masked_right 16 v 0xff00 8 ≡ v / 2 ^ 8 % 256
    byte_1 = omega (arith, and_byte 8 (v % 2 ^ 16))

    byte_0 : masked_left 16 v 0x00ff 8 ≡ v % 256 * 2 ^ 8
    byte_0 = omega (arith, and_byte 0 (v % 2 ^ 16))

pub ant_byte_swap_32_lem : (v : ℕ) → v < 2 ^ 32 → ant_byte_swap_32 v ≡ be_value (le_bytes 4 v)
unfolding ant_byte_swap_32
ant_byte_swap_32_lem v h =
    rw
      (
        byte_3,
        byte_2,
        byte_1,
        byte_0,
        or_above 8 (v / 2 ^ 16 % 256) (v / 2 ^ 24 % 256) (omega arith),
        or_above 16 (v / 2 ^ 8 % 256) (v / 2 ^ 24 % 256 + v / 2 ^ 16 % 256 * 2 ^ 8) (omega arith),
        or_above 24 (v % 256)
            (v / 2 ^ 24 % 256 + v / 2 ^ 16 % 256 * 2 ^ 8 + v / 2 ^ 8 % 256 * 2 ^ 16) (omega arith),
      )
      (omega arith)
  where
    byte_3 : masked_right 32 v 0xff000000 24 ≡ v / 2 ^ 24 % 256
    byte_3 = omega (arith, and_byte 24 (v % 2 ^ 32))

    byte_2 : masked_right 32 v 0x00ff0000 8 ≡ v / 2 ^ 16 % 256 * 2 ^ 8
    byte_2 = omega (arith, and_byte 16 (v % 2 ^ 32))

    byte_1 : masked_left 32 v 0x0000ff00 8 ≡ v / 2 ^ 8 % 256 * 2 ^ 16
    byte_1 = omega (arith, and_byte 8 (v % 2 ^ 32))

    byte_0 : masked_left 32 v 0x000000ff 24 ≡ v % 256 * 2 ^ 24
    byte_0 = omega (arith, and_byte 0 (v % 2 ^ 32))

-- The bytes of a 64-bit word, each moved to its mirrored place.
module _ (v : ℕ) (h : v < 2 ^ 64) where
  moved_7 : masked_right 64 v 0xff00000000000000 56 ≡ v / 2 ^ 56 % 256
  moved_7 = omega (arith, and_byte 56 (v % 2 ^ 64))

  moved_6 : masked_right 64 v 0x00ff000000000000 40 ≡ v / 2 ^ 48 % 256 * 2 ^ 8
  moved_6 = omega (arith, and_byte 48 (v % 2 ^ 64))

  moved_5 : masked_right 64 v 0x0000ff0000000000 24 ≡ v / 2 ^ 40 % 256 * 2 ^ 16
  moved_5 = omega (arith, and_byte 40 (v % 2 ^ 64))

  moved_4 : masked_right 64 v 0x000000ff00000000 8 ≡ v / 2 ^ 32 % 256 * 2 ^ 24
  moved_4 = omega (arith, and_byte 32 (v % 2 ^ 64))

  moved_3 : masked_left 64 v 0x00000000ff000000 8 ≡ v / 2 ^ 24 % 256 * 2 ^ 32
  moved_3 = omega (arith, and_byte 24 (v % 2 ^ 64))

  moved_2 : masked_left 64 v 0x0000000000ff0000 24 ≡ v / 2 ^ 16 % 256 * 2 ^ 40
  moved_2 = omega (arith, and_byte 16 (v % 2 ^ 64))

  moved_1 : masked_left 64 v 0x000000000000ff00 40 ≡ v / 2 ^ 8 % 256 * 2 ^ 48
  moved_1 = omega (arith, and_byte 8 (v % 2 ^ 64))

  moved_0 : masked_left 64 v 0x00000000000000ff 56 ≡ v % 256 * 2 ^ 56
  moved_0 = omega (arith, and_byte 0 (v % 2 ^ 64))

pub ant_byte_swap_64_lem : (v : ℕ) → v < 2 ^ 64 → ant_byte_swap_64 v ≡ be_value (le_bytes 8 v)
unfolding ant_byte_swap_64
ant_byte_swap_64_lem v h =
    rw
      (
        moved_7 v h,
        moved_6 v h,
        moved_5 v h,
        moved_4 v h,
        moved_3 v h,
        moved_2 v h,
        moved_1 v h,
        moved_0 v h,
        or_above 8 (v / 2 ^ 48 % 256) (v / 2 ^ 56 % 256) (omega arith),
        or_above 16 (v / 2 ^ 40 % 256) (v / 2 ^ 56 % 256 + v / 2 ^ 48 % 256 * 2 ^ 8) (omega arith),
        or_above 24 (v / 2 ^ 32 % 256)
            (v / 2 ^ 56 % 256 + v / 2 ^ 48 % 256 * 2 ^ 8 + v / 2 ^ 40 % 256 * 2 ^ 16) (omega arith),
        or_above 32 (v / 2 ^ 24 % 256)
            (v / 2 ^ 56 % 256
              + v / 2 ^ 48 % 256 * 2 ^ 8
              + v / 2 ^ 40 % 256 * 2 ^ 16
              + v / 2 ^ 32 % 256 * 2 ^ 24)
            (omega arith),
        or_above 40 (v / 2 ^ 16 % 256)
            (v / 2 ^ 56 % 256
              + v / 2 ^ 48 % 256 * 2 ^ 8
              + v / 2 ^ 40 % 256 * 2 ^ 16
              + v / 2 ^ 32 % 256 * 2 ^ 24
              + v / 2 ^ 24 % 256 * 2 ^ 32)
            (omega arith),
        or_above 48 (v / 2 ^ 8 % 256)
            (v / 2 ^ 56 % 256
              + v / 2 ^ 48 % 256 * 2 ^ 8
              + v / 2 ^ 40 % 256 * 2 ^ 16
              + v / 2 ^ 32 % 256 * 2 ^ 24
              + v / 2 ^ 24 % 256 * 2 ^ 32
              + v / 2 ^ 16 % 256 * 2 ^ 40)
            (omega arith),
        or_above 56 (v % 256)
            (v / 2 ^ 56 % 256
              + v / 2 ^ 48 % 256 * 2 ^ 8
              + v / 2 ^ 40 % 256 * 2 ^ 16
              + v / 2 ^ 32 % 256 * 2 ^ 24
              + v / 2 ^ 24 % 256 * 2 ^ 32
              + v / 2 ^ 16 % 256 * 2 ^ 40
              + v / 2 ^ 8 % 256 * 2 ^ 48)
            (omega arith),
      )
      (omega arith)
