-- ===== src/Endian/Order.antt =====
-- The conversions of endian.h against memory: what is stored after a conversion to an order has
-- its bytes in that order, and a conversion from an order reads them back, on every system.
use libant.Common.{ℕ, ◌^◌, ◌<◌, ◌≡◌, refl, sym, ap, ◌∙◌, arith}
use libant.Common.{List, [], length, reverse}
use libant.Endian.{Endian, IntType, size_of, modulus, stored, loaded, Platform, IsPlatform}
use libant.Endian.{on_little, on_big}
use libant.Endian.{swap_16, swap_32, swap_64, byte_swap}
use libant.Endian.{big_endian_to_host, host_to_big_endian}
use libant.Endian.{little_endian_to_host, host_to_little_endian}
use libant.Endian.Bytes.{le_bytes, be_bytes, le_value, be_value, IsBytes}
use libant.Endian.Bytes.{reverse_aux-IsBytes, length-reverse, le_value-lt}
use libant.Endian.Bytes.{le_value-le_bytes, be_value-be_bytes, le_bytes-le_value, be_bytes-be_value}
use libant.Endian.Bytes.{length-le_bytes, length-be_bytes, le_bytes-IsBytes, be_bytes-IsBytes}
use libant.Endian.Swap.{ant_byte_swap_16_lem, ant_byte_swap_32_lem, ant_byte_swap_64_lem}

pub length-stored : (e : Endian) (n v : ℕ) → length (stored e n v) ≡ n
length-stored Endian.little_endian n v = length-le_bytes n v
length-stored Endian.big_endian n v = length-be_bytes n v

-- Memory holds what was stored, and storing what was loaded changes no byte.
pub loaded-stored : (e : Endian) (n v : ℕ) → v < 256 ^ n → loaded e (stored e n v) ≡ v
loaded-stored Endian.little_endian n v h = le_value-le_bytes n v h
loaded-stored Endian.big_endian n v h = be_value-be_bytes n v h

pub stored-loaded :
    (e : Endian) (n : ℕ) (bs : List ℕ) → length bs ≡ n → IsBytes bs → stored e n (loaded e bs) ≡ bs
stored-loaded Endian.little_endian n bs l h = rw (sym l) (le_bytes-le_value bs h)
stored-loaded Endian.big_endian n bs l h = rw (sym l) (be_bytes-be_value bs h)

module _ (p : Platform) (q : IsPlatform p) where
  swap_16_lem : (v : ℕ) → v < 2 ^ 16 → swap_16 p v ≡ be_value (le_bytes 2 v)
  unfolding swap_16
  swap_16_lem v h = ground (arith, q.bswap_16_lem v, ant_byte_swap_16_lem v)

  swap_32_lem : (v : ℕ) → v < 2 ^ 32 → swap_32 p v ≡ be_value (le_bytes 4 v)
  unfolding swap_32
  swap_32_lem v h = ground (arith, q.bswap_32_lem v, ant_byte_swap_32_lem v)

  swap_64_lem : (v : ℕ) → v < 2 ^ 64 → swap_64 p v ≡ be_value (le_bytes 8 v)
  unfolding swap_64
  swap_64_lem v h = ground (arith, q.bswap_64_lem v, ant_byte_swap_64_lem v)

  pub byte_swap_lem :
      (t : IntType) (v : ℕ) → v < modulus t → byte_swap p t v ≡ be_value (le_bytes (size_of t) v)
  unfolding byte_swap
  byte_swap_lem IntType.int8 v h = omega arith
  byte_swap_lem IntType.uint8 v h = omega arith
  byte_swap_lem IntType.int16 v h = swap_16_lem v h
  byte_swap_lem IntType.uint16 v h = swap_16_lem v h
  byte_swap_lem IntType.int32 v h = swap_32_lem v h
  byte_swap_lem IntType.uint32 v h = swap_32_lem v h
  byte_swap_lem IntType.int64 v h = swap_64_lem v h
  byte_swap_lem IntType.uint64 v h = swap_64_lem v h

module _ (n s v : ℕ) (reversed : s ≡ be_value (le_bytes n v)) (h : v < 256 ^ n) where
  on_little-stored : (e : Endian) → on_little e s v ≡ be_value (stored e n v)
  on_little-stored Endian.little_endian = reversed
  on_little-stored Endian.big_endian = sym (be_value-be_bytes n v h)

  on_little-loaded : (e : Endian) → on_little e s v ≡ loaded e (be_bytes n v)
  on_little-loaded Endian.little_endian = reversed
  on_little-loaded Endian.big_endian = sym (be_value-be_bytes n v h)

  on_big-stored : (e : Endian) → on_big e s v ≡ le_value (stored e n v)
  on_big-stored Endian.little_endian = sym (le_value-le_bytes n v h)
  on_big-stored Endian.big_endian = reversed

  on_big-loaded : (e : Endian) → on_big e s v ≡ loaded e (le_bytes n v)
  on_big-loaded Endian.little_endian = sym (le_value-le_bytes n v h)
  on_big-loaded Endian.big_endian = reversed

-- One byte has no order.
one_byte :
    (e : Endian) (v : ℕ)
    → v < 256
    → (v ≡ be_value (stored e 1 v))
      × (v ≡ le_value (stored e 1 v))
      × (v ≡ loaded e (be_bytes 1 v))
      × (v ≡ loaded e (le_bytes 1 v))
one_byte Endian.little_endian v h = omega arith
one_byte Endian.big_endian v h = omega arith

module _ (p : Platform) (q : IsPlatform p) (v : ℕ) where
  open p use {system_endian}

  big_endian_to_host_lem :
      (t : IntType)
      → v < modulus t
      → big_endian_to_host p t v ≡ be_value (stored system_endian (size_of t) v)
  unfolding big_endian_to_host
  big_endian_to_host_lem IntType.int8 h = (one_byte system_endian v h).0
  big_endian_to_host_lem IntType.uint8 h = (one_byte system_endian v h).0
  big_endian_to_host_lem IntType.int16 h = q.ntohs_lem v h
  big_endian_to_host_lem IntType.uint16 h = q.ntohs_lem v h
  big_endian_to_host_lem IntType.int32 h =
      on_little-stored 4 _ v (swap_32_lem p q v h) h system_endian
  big_endian_to_host_lem IntType.uint32 h =
      on_little-stored 4 _ v (swap_32_lem p q v h) h system_endian
  big_endian_to_host_lem IntType.int64 h =
      on_little-stored 8 _ v (swap_64_lem p q v h) h system_endian
  big_endian_to_host_lem IntType.uint64 h =
      on_little-stored 8 _ v (swap_64_lem p q v h) h system_endian

  little_endian_to_host_lem :
      (t : IntType)
      → v < modulus t
      → little_endian_to_host p t v ≡ le_value (stored system_endian (size_of t) v)
  unfolding little_endian_to_host
  little_endian_to_host_lem IntType.int8 h = (one_byte system_endian v h).1
  little_endian_to_host_lem IntType.uint8 h = (one_byte system_endian v h).1
  little_endian_to_host_lem IntType.int16 h =
      on_big-stored 2 _ v (swap_16_lem p q v h) h system_endian
  little_endian_to_host_lem IntType.uint16 h =
      on_big-stored 2 _ v (swap_16_lem p q v h) h system_endian
  little_endian_to_host_lem IntType.int32 h =
      on_big-stored 4 _ v (swap_32_lem p q v h) h system_endian
  little_endian_to_host_lem IntType.uint32 h =
      on_big-stored 4 _ v (swap_32_lem p q v h) h system_endian
  little_endian_to_host_lem IntType.int64 h =
      on_big-stored 8 _ v (swap_64_lem p q v h) h system_endian
  little_endian_to_host_lem IntType.uint64 h =
      on_big-stored 8 _ v (swap_64_lem p q v h) h system_endian

  pub host_to_big_endian_lem :
      (t : IntType)
      → v < modulus t
      → host_to_big_endian p t v ≡ loaded system_endian (be_bytes (size_of t) v)
  unfolding host_to_big_endian
  host_to_big_endian_lem IntType.int8 h = (one_byte system_endian v h).2
  host_to_big_endian_lem IntType.uint8 h = (one_byte system_endian v h).2
  host_to_big_endian_lem IntType.int16 h = q.htons_lem v h
  host_to_big_endian_lem IntType.uint16 h = q.htons_lem v h
  host_to_big_endian_lem IntType.int32 h =
      on_little-loaded 4 _ v (swap_32_lem p q v h) h system_endian
  host_to_big_endian_lem IntType.uint32 h =
      on_little-loaded 4 _ v (swap_32_lem p q v h) h system_endian
  host_to_big_endian_lem IntType.int64 h =
      on_little-loaded 8 _ v (swap_64_lem p q v h) h system_endian
  host_to_big_endian_lem IntType.uint64 h =
      on_little-loaded 8 _ v (swap_64_lem p q v h) h system_endian

  host_to_little_endian_lem :
      (t : IntType)
      → v < modulus t
      → host_to_little_endian p t v ≡ loaded system_endian (le_bytes (size_of t) v)
  unfolding host_to_little_endian
  host_to_little_endian_lem IntType.int8 h = (one_byte system_endian v h).3
  host_to_little_endian_lem IntType.uint8 h = (one_byte system_endian v h).3
  host_to_little_endian_lem IntType.int16 h =
      on_big-loaded 2 _ v (swap_16_lem p q v h) h system_endian
  host_to_little_endian_lem IntType.uint16 h =
      on_big-loaded 2 _ v (swap_16_lem p q v h) h system_endian
  host_to_little_endian_lem IntType.int32 h =
      on_big-loaded 4 _ v (swap_32_lem p q v h) h system_endian
  host_to_little_endian_lem IntType.uint32 h =
      on_big-loaded 4 _ v (swap_32_lem p q v h) h system_endian
  host_to_little_endian_lem IntType.int64 h =
      on_big-loaded 8 _ v (swap_64_lem p q v h) h system_endian
  host_to_little_endian_lem IntType.uint64 h =
      on_big-loaded 8 _ v (swap_64_lem p q v h) h system_endian

pub modulus_lem : (t : IntType) → modulus t ≡ 256 ^ size_of t
modulus_lem IntType.int8 = refl
modulus_lem IntType.uint8 = refl
modulus_lem IntType.int16 = refl
modulus_lem IntType.uint16 = refl
modulus_lem IntType.int32 = refl
modulus_lem IntType.uint32 = refl
modulus_lem IntType.int64 = refl
modulus_lem IntType.uint64 = refl

pub loaded-lt : (e : Endian) (bs : List ℕ) → IsBytes bs → loaded e bs < 256 ^ length bs
loaded-lt Endian.little_endian bs h = le_value-lt bs h
loaded-lt Endian.big_endian bs h =
    rw (← length-reverse bs) (le_value-lt (reverse bs) (reverse_aux-IsBytes bs [] h tt))

module _ (p : Platform) (q : IsPlatform p) (t : IntType) where
  -- Whatever the byte order of the system and for both builds, the memory of
  -- `HostToLittleEndian(v)` is `v` with the least significant byte first, and the memory of
  -- `HostToBigEndian(v)` is `v` with the most significant byte first.
  pub host_to_endian-stored :
      (v : ℕ)
      → v < modulus t
      → (stored p.system_endian (size_of t) (host_to_little_endian p t v) ≡ le_bytes (size_of t) v)
        × (stored p.system_endian (size_of t) (host_to_big_endian p t v) ≡ be_bytes (size_of t) v)
  host_to_endian-stored v h = (
    rw (host_to_little_endian_lem p q v t h) (
        stored-loaded p.system_endian (size_of t) (le_bytes (size_of t) v)
          (length-le_bytes (size_of t) v) (le_bytes-IsBytes (size_of t) v)),
    rw (host_to_big_endian_lem p q v t h) (
        stored-loaded p.system_endian (size_of t) (be_bytes (size_of t) v)
          (length-be_bytes (size_of t) v) (be_bytes-IsBytes (size_of t) v)),
  )

  -- An integer that is loaded from as many bytes as its type has and then given to
  -- `LittleEndianToHost` (`BigEndianToHost`) is the number that the bytes spell with the least
  -- (most) significant one first, whatever the byte order of the system and for both builds.
  pub endian_to_host-loaded :
      (bs : List ℕ)
      → length bs ≡ size_of t
      → IsBytes bs
      → (little_endian_to_host p t (loaded p.system_endian bs) ≡ le_value bs)
        × (big_endian_to_host p t (loaded p.system_endian bs) ≡ be_value bs)
  endian_to_host-loaded bs l h = (
    little_endian_to_host_lem p q (loaded p.system_endian bs) t fits
        ∙ ap le_value (stored-loaded p.system_endian (size_of t) bs l h),
    big_endian_to_host_lem p q (loaded p.system_endian bs) t fits
        ∙ ap be_value (stored-loaded p.system_endian (size_of t) bs l h),
  )
    where
      fits : loaded p.system_endian bs < modulus t
      fits = rw (modulus_lem t, ← l) (loaded-lt p.system_endian bs h)

  -- `ByteSwap` undoes itself on every value of its type, for both builds.
  byte_swap_involutive : (v : ℕ) → v < modulus t → byte_swap p t (byte_swap p t v) ≡ v
  byte_swap_involutive v h =
      byte_swap_lem p q t (byte_swap p t v) (rw (byte_swap_lem p q t v h) small)
      ∙ ap (λ w. be_value (le_bytes n w)) (byte_swap_lem p q t v h)
      ∙ ap be_value (
          stored-loaded Endian.little_endian n (be_bytes n v) (length-be_bytes n v)
            (be_bytes-IsBytes n v))
      ∙ be_value-be_bytes n v (rw (← modulus_lem t) h)
    where
      n : ℕ
      n = size_of t

      small : be_value (le_bytes n v) < modulus t
      small = rw (modulus_lem t) (
          rw (length-le_bytes n v) at
            (loaded-lt Endian.big_endian (le_bytes n v) (le_bytes-IsBytes n v)))
