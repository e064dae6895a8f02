-- ===== src/Endian.antt =====
-- include/libant/encoding/binary/endian.h: byte order. A value of an integer type is its bit
-- pattern, so the signed and unsigned overloads of a width are one function; the parameter type
-- of an overload is an `IntType`. What the C library and the build provide is a `Platform`.
pub mod Bytes
pub mod Swap
pub mod Order
pub mod Samples
mod Tests
use libant.Common.{ℕ, ◌*◌, ◌/◌, ◌%◌, ◌^◌, ◌<◌, ◌≡◌, bit_and, bit_or, if◌then◌else◌}
use libant.Common.{Bool, List}
use Bytes.{le_bytes, be_bytes, le_value, be_value}

-- `enum class Endian`
pub data Endian : Type 0 where
  little_endian big_endian : Endian

-- The integer types that the overloads and templates support.
pub data IntType : Type 0 where
  int8 uint8 int16 uint16 int32 uint32 int64 uint64 : IntType

-- `sizeof`
abbrev pub size_of : IntType → ℕ
size_of IntType.int8 = 1
size_of IntType.uint8 = 1
size_of IntType.int16 = 2
size_of IntType.uint16 = 2
size_of IntType.int32 = 4
size_of IntType.uint32 = 4
size_of IntType.int64 = 8
size_of IntType.uint64 = 8

-- The number of bit patterns of a type.
abbrev pub modulus : IntType → ℕ
modulus t = 2 ^ (8 * size_of t)

-- The bytes of memory that hold an integer of `n` bytes on a system of the given order, and the
-- integer that such bytes hold.
abbrev pub stored : Endian → ℕ → ℕ → List ℕ
stored Endian.little_endian n v = le_bytes n v
stored Endian.big_endian n v = be_bytes n v

abbrev pub loaded : Endian → List ℕ → ℕ
loaded Endian.little_endian bs = le_value bs
loaded Endian.big_endian bs = be_value bs

-- `__linux__`, `SystemEndian`, and the functions of byteswap.h and arpa/inet.h.
pub record Platform : Type 0 where
  pub linux : Bool
  pub system_endian : Endian
  pub bswap_16 : ℕ → ℕ
  pub bswap_32 : ℕ → ℕ
  pub bswap_64 : ℕ → ℕ
  pub ntohs : ℕ → ℕ
  pub htons : ℕ → ℕ

-- What their manual pages say: `bswap_*` reverses the bytes, `ntohs` reads the memory of its
-- argument in network order, and the memory of a result of `htons` is in network order.
pub record IsPlatform (p : Platform) : Type 0 where
  pub bswap_16_lem : (v : ℕ) → v < 2 ^ 16 → p.bswap_16 v ≡ be_value (le_bytes 2 v)
  pub bswap_32_lem : (v : ℕ) → v < 2 ^ 32 → p.bswap_32 v ≡ be_value (le_bytes 4 v)
  pub bswap_64_lem : (v : ℕ) → v < 2 ^ 64 → p.bswap_64 v ≡ be_value (le_bytes 8 v)
  pub ntohs_lem : (v : ℕ) → v < 2 ^ 16 → p.ntohs v ≡ be_value (stored p.system_endian 2 v)
  pub htons_lem : (v : ℕ) → v < 2 ^ 16 → p.htons v ≡ loaded p.system_endian (be_bytes 2 v)

-- `(uintW_t)x & mask`, shifted right, and shifted left at width `w`.
abbrev masked_right : ℕ → ℕ → ℕ → ℕ → ℕ
masked_right w x mask k = bit_and (x % 2 ^ w) mask / 2 ^ k

abbrev masked_left : ℕ → ℕ → ℕ → ℕ → ℕ
masked_left w x mask k = bit_and (x % 2 ^ w) mask * 2 ^ k % 2 ^ w

-- ANT_BYTE_SWAP_16, _32 and _64
unfoldable pub ant_byte_swap_16 : ℕ → ℕ
ant_byte_swap_16 x = bit_or (masked_right 16 x 0xff00 8) (masked_left 16 x 0x00ff 8) % 2 ^ 16

unfoldable pub ant_byte_swap_32 : ℕ → ℕ
ant_byte_swap_32 x =
    bit_or
      (bit_or (bit_or (masked_right 32 x 0xff000000 24) (masked_right 32 x 0x00ff0000 8))
        (masked_left 32 x 0x0000ff00 8))
      (masked_left 32 x 0x000000ff 24)
    % 2 ^ 32

unfoldable pub ant_byte_swap_64 : ℕ → ℕ
ant_byte_swap_64 x =
    let a =
      bit_or (masked_right 64 x 0xff00000000000000 56) (masked_right 64 x 0x00ff000000000000 40) in
    let b = bit_or a (masked_right 64 x 0x0000ff0000000000 24) in
    let c = bit_or b (masked_right 64 x 0x000000ff00000000 8) in
    let d = bit_or c (masked_left 64 x 0x00000000ff000000 8) in
    let e = bit_or d (masked_left 64 x 0x0000000000ff0000 24) in
    let f = bit_or e (masked_left 64 x 0x000000000000ff00 40) in
    bit_or f (masked_left 64 x 0x00000000000000ff 56) % 2 ^ 64

-- `if (SystemEndian == …) return swapped; return v;`
abbrev pub on_little : Endian → ℕ → ℕ → ℕ
on_little Endian.little_endian swapped v = swapped
on_little Endian.big_endian swapped v = v

abbrev pub on_big : Endian → ℕ → ℕ → ℕ
on_big Endian.little_endian swapped v = v
on_big Endian.big_endian swapped v = swapped

module _ (p : Platform) where
  -- `#ifdef __linux__`
  unfoldable pub swap_16 : ℕ → ℕ
  swap_16 v = if p.linux then p.bswap_16 v else ant_byte_swap_16 v

  unfoldable pub swap_32 : ℕ → ℕ
  swap_32 v = if p.linux then p.bswap_32 v else ant_byte_swap_32 v

  unfoldable pub swap_64 : ℕ → ℕ
  swap_64 v = if p.linux then p.bswap_64 v else ant_byte_swap_64 v

  -- `ByteSwap`
  unfoldable pub byte_swap : IntType → ℕ → ℕ
  byte_swap IntType.int8 v = v
  byte_swap IntType.uint8 v = v
  byte_swap IntType.int16 v = swap_16 v
  byte_swap IntType.uint16 v = swap_16 v
  byte_swap IntType.int32 v = swap_32 v
  byte_swap IntType.uint32 v = swap_32 v
  byte_swap IntType.int64 v = swap_64 v
  byte_swap IntType.uint64 v = swap_64 v

  -- `BigEndianToHost`
  unfoldable pub big_endian_to_host : IntType → ℕ → ℕ
  big_endian_to_host IntType.int8 v = v
  big_endian_to_host IntType.uint8 v = v
  big_endian_to_host IntType.int16 v = p.ntohs v
  big_endian_to_host IntType.uint16 v = p.ntohs v
  big_endian_to_host IntType.int32 v = on_little p.system_endian (swap_32 v) v
  big_endian_to_host IntType.uint32 v = on_little p.system_endian (swap_32 v) v
  big_endian_to_host IntType.int64 v = on_little p.system_endian (swap_64 v) v
  big_endian_to_host IntType.uint64 v = on_little p.system_endian (swap_64 v) v

  -- `HostToBigEndian`
  unfoldable pub host_to_big_endian : IntType → ℕ → ℕ
  host_to_big_endian IntType.int8 v = v
  host_to_big_endian IntType.uint8 v = v
  host_to_big_endian IntType.int16 v = p.htons v
  host_to_big_endian IntType.uint16 v = p.htons v
  host_to_big_endian IntType.int32 v = on_little p.system_endian (swap_32 v) v
  host_to_big_endian IntType.uint32 v = on_little p.system_endian (swap_32 v) v
  host_to_big_endian IntType.int64 v = on_little p.system_endian (swap_64 v) v
  host_to_big_endian IntType.uint64 v = on_little p.system_endian (swap_64 v) v

  -- `LittleEndianToHost`
  unfoldable pub little_endian_to_host : IntType → ℕ → ℕ
  little_endian_to_host IntType.int8 v = v
  little_endian_to_host IntType.uint8 v = v
  little_endian_to_host IntType.int16 v = on_big p.system_endian (swap_16 v) v
  little_endian_to_host IntType.uint16 v = on_big p.system_endian (swap_16 v) v
  little_endian_to_host IntType.int32 v = on_big p.system_endian (swap_32 v) v
  little_endian_to_host IntType.uint32 v = on_big p.system_endian (swap_32 v) v
  little_endian_to_host IntType.int64 v = on_big p.system_endian (swap_64 v) v
  little_endian_to_host IntType.uint64 v = on_big p.system_endian (swap_64 v) v

  -- `HostToLittleEndian`
  unfoldable pub host_to_little_endian : IntType → ℕ → ℕ
  host_to_little_endian IntType.int8 v = v
  host_to_little_endian IntType.uint8 v = v
  host_to_little_endian IntType.int16 v = on_big p.system_endian (swap_16 v) v
  host_to_little_endian IntType.uint16 v = on_big p.system_endian (swap_16 v) v
  host_to_little_endian IntType.int32 v = on_big p.system_endian (swap_32 v) v
  host_to_little_endian IntType.uint32 v = on_big p.system_endian (swap_32 v) v
  host_to_little_endian IntType.int64 v = on_big p.system_endian (swap_64 v) v
  host_to_little_endian IntType.uint64 v = on_big p.system_endian (swap_64 v) v
