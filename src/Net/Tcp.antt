-- ===== src/Net/Tcp.antt =====
-- The transport checksums: TCP over IPv4, TCP and UDP over IPv6.
use libant.Common.{ℕ, ◌+◌, ◌%◌, ◌^◌, ◌≤◌, ◌<◌, ◌≡◌, refl, arith, List, [], ◌∷◌}
use libant.Common.{
  Bool-cases, ◌⊎◌, inl, inr, ltb, length, drop, slice, length-take, length-drop, some, true, false,
}
use libant.Endian.{Endian, stored, loaded, Platform, IsPlatform, IntType, host_to_big_endian}
use libant.Endian.Bytes.{IsBytes, take-IsBytes, drop-IsBytes, be_bytes-IsBytes}
use libant.Endian.Order.{loaded-lt, host_to_big_endian_lem}
use libant.Checksum.Verify.{bytes_of}
use libant.Net.{load32, pseudo_sum4, pseudo_sum6, set_tcp4, set_tcp6, set_udp6}
use libant.Net.Field.{set_sum-HasSum}
use libant.Net.Pseudo.{
  pseudo4, pseudo6, pseudo_sum4_lem, pseudo_sum6_lem, IsSealed, HasSum-IsSealed,
}

load32_lt :
    (e : Endian) (i : ℕ) (mem : List ℕ) → IsBytes mem → i + 4 ≤ length mem → load32 e i mem < 2 ^ 32
load32_lt e i mem h inside =
    let four : length (slice mem i 4) ≡ 4 =
      omega (arith, length-take 4 (drop i mem), length-drop i mem) in
    let lt : load32 e i mem < 256 ^ length (slice mem i 4) =
      loaded-lt e (slice mem i 4) (take-IsBytes 4 (drop i mem) (drop-IsBytes i mem h)) in
    rw four at lt

proto_lt : (e : Endian) (a b v : ℕ) → a < 256 → b < 256 → loaded e (a ∷ b ∷ stored e 2 v) < 2 ^ 32
proto_lt e a b v ha hb =
    let (c, d, eq, small) = bytes_of e v in
    rw eq (loaded-lt e (a ∷ b ∷ c ∷ d ∷ []) (ha, (hb, small)))

swapped_lt :
    (p : Platform)
    → IsPlatform p
    → (v : ℕ) → v < 2 ^ 32
    → host_to_big_endian p IntType.uint32 v < 2 ^ 32
swapped_lt p q v h =
    rw (host_to_big_endian_lem p q v IntType.uint32 h)
      (loaded-lt p.system_endian _ (be_bytes-IsBytes 4 v))

module _ (p : Platform) (q : IsPlatform p) where
  pseudo_sum4_lt :
      (ip : List ℕ) (len : ℕ) → IsBytes ip → 20 ≤ length ip → pseudo_sum4 p ip len < 2 ^ 34
  unfolding pseudo_sum4
  pseudo_sum4_lt ip len h long =
      let e : Endian = p.system_endian in
      omega (
        arith,
        load32_lt e 12 ip h (omega arith),
        load32_lt e 16 ip h (omega arith),
        proto_lt e 0 6 (p.htons (len % 2 ^ 16)) (omega arith) (omega arith),
      )

  pseudo_sum6_lt :
      (proto : ℕ) (ip : List ℕ) (len : ℕ)
      → IsBytes ip
      → 40 ≤ length ip
      → len < 2 ^ 32
      → proto < 256
      → pseudo_sum6 p proto ip len < 2 ^ 36
  unfolding pseudo_sum6
  pseudo_sum6_lt proto ip len h long small tiny =
      let e : Endian = p.system_endian in
      omega (
        arith,
        load32_lt e 8 ip h (omega arith),
        load32_lt e 12 ip h (omega arith),
        load32_lt e 16 ip h (omega arith),
        load32_lt e 20 ip h (omega arith),
        load32_lt e 24 ip h (omega arith),
        load32_lt e 28 ip h (omega arith),
        load32_lt e 32 ip h (omega arith),
        load32_lt e 36 ip h (omega arith),
        swapped_lt p q len small,
        swapped_lt p q proto (omega arith),
      )

  -- TCP over IPv4: on a packet of `len` bytes, below 2^31, behind an IP header of at least 20 bytes: if
  -- `len` is below 20, the call fails and changes nothing; if not, it succeeds, changes nothing
  -- but the checksum, and `Checksum16` of the pseudo-header followed by the packet is then 0xFFFF.
  -- The pseudo-header has, in network byte order, source and destination address of the IP
  -- header, zero, protocol 6 and the low 16 bits of `len`. On a big-endian
  -- system and for odd `len`, `Checksum16` is not the Internet checksum.
  pub set_tcp4-IsSealed :
      (ip packet : List ℕ) (len : ℕ)
      → IsBytes ip
      → 20 ≤ length ip
      → IsBytes packet
      → length packet ≡ len
      → len < 2 ^ 31
      → ((len < 20) × (set_tcp4 p ip packet len ≡ some (false, packet)))
        ⊎ ((out : List ℕ) × (20 ≤ len)
            × (set_tcp4 p ip packet len ≡ some (true, out))
            × IsSealed p.system_endian (pseudo4 ip len) 16 packet out)
  unfolding set_tcp4
  set_tcp4-IsSealed ip packet len hi long hp whole small = elim (Bool-cases (ltb len 20)) [
    | inl short ↦ inl (ground arith, rw short refl)
    | inr fits ↦
        let enough : 20 ≤ len = ground arith in
        let (out, eq, set) =
          set_sum-HasSum p (pseudo_sum4 p ip len) 16 8 len packet refl (omega arith) whole hp
            (omega (arith, pseudo_sum4_lt ip len hi long)) in
        inr (
          out,
          enough,
          rw fits eq,
          HasSum-IsSealed p.system_endian (pseudo_sum4 p ip len) 16 (pseudo4 ip len) packet out
              (pseudo_sum4_lem p q ip out len long) set,
        )
  ]

  -- TCP over IPv6: on a packet of `len` bytes, below 2^31, behind an IP header of at least 40 bytes: if
  -- `len` is below 20, the call fails and changes nothing; if not, it succeeds, changes nothing
  -- but the checksum, and `Checksum16` of the pseudo-header followed by the packet is then 0xFFFF.
  -- The pseudo-header has, in network byte order, source and destination address of the IP
  -- header, `len` in four bytes and the next header 6. On a big-endian
  -- system and for odd `len`, `Checksum16` is not the Internet checksum.
  pub set_tcp6-IsSealed :
      (ip packet : List ℕ) (len : ℕ)
      → IsBytes ip
      → 40 ≤ length ip
      → IsBytes packet
      → length packet ≡ len
      → len < 2 ^ 31
      → ((len < 20) × (set_tcp6 p ip packet len ≡ some (false, packet)))
        ⊎ ((out : List ℕ) × (20 ≤ len)
            × (set_tcp6 p ip packet len ≡ some (true, out))
            × IsSealed p.system_endian (pseudo6 6 ip len) 16 packet out)
  unfolding set_tcp6
  set_tcp6-IsSealed ip packet len hi long hp whole small = elim (Bool-cases (ltb len 20)) [
    | inl short ↦ inl (ground arith, rw short refl)
    | inr fits ↦
        let enough : 20 ≤ len = ground arith in
        let (out, eq, set) =
          set_sum-HasSum p (pseudo_sum6 p 6 ip len) 16 8 len packet refl (omega arith) whole hp
            (omega (arith, pseudo_sum6_lt 6 ip len hi long (omega arith) (omega arith))) in
        inr (
          out,
          enough,
          rw fits eq,
          HasSum-IsSealed p.system_endian (pseudo_sum6 p 6 ip len) 16 (pseudo6 6 ip len) packet out
              (pseudo_sum6_lem p q 6 ip out len long (omega arith) (omega arith) refl) set,
        )
  ]

  -- UDP over IPv6: on a packet of `len` bytes, below 2^31, behind an IP header of at least 40 bytes: if
  -- `len` is below 8, the call fails and changes nothing; if not, it succeeds, changes nothing
  -- but the checksum, and `Checksum16` of the pseudo-header followed by the packet is then 0xFFFF.
  -- The pseudo-header has, in network byte order, source and destination address of the IP
  -- header, `len` in four bytes and the next header 17. On a big-endian
  -- system and for odd `len`, `Checksum16` is not the Internet checksum.
  pub set_udp6-IsSealed :
      (ip packet : List ℕ) (len : ℕ)
      → IsBytes ip
      → 40 ≤ length ip
      → IsBytes packet
      → length packet ≡ len
      → len < 2 ^ 31
      → ((len < 8) × (set_udp6 p ip packet len ≡ some (false, packet)))
        ⊎ ((out : List ℕ) × (8 ≤ len)
            × (set_udp6 p ip packet len ≡ some (true, out))
            × IsSealed p.system_endian (pseudo6 17 ip len) 6 packet out)
  unfolding set_udp6
  set_udp6-IsSealed ip packet len hi long hp whole small = elim (Bool-cases (ltb len 8)) [
    | inl short ↦ inl (ground arith, rw short refl)
    | inr fits ↦
        let enough : 8 ≤ len = ground arith in
        let (out, eq, set) =
          set_sum-HasSum p (pseudo_sum6 p 17 ip len) 6 3 len packet refl (omega arith) whole hp
            (omega (arith, pseudo_sum6_lt 17 ip len hi long (omega arith) (omega arith))) in
        inr (
          out,
          enough,
          rw fits eq,
          HasSum-IsSealed p.system_endian (pseudo_sum6 p 17 ip len) 6 (pseudo6 17 ip len) packet out
              (pseudo_sum6_lem p q 17 ip out len long (omega arith) (omega arith) refl) set,
        )
  ]
