-- ===== src/Net/Tests.antt =====
-- The witnesses of the properties of the packet checksums.
use libant.Common.{
  zero, suc, ℕ, ◌-◌, ◌^◌, ◌≤◌, ◌<◌, ◌≡◌, ◌⊎◌, refl, arith, List, ◌∷◌, length, take, drop, replicate,
  some, true, false, Bool,
}
use libant.Endian.Bytes.{IsBytes}
use libant.Endian.Samples.{pc, pc-IsPlatform}
use libant.Checksum.{checksum16}
use libant.Net.{header_length, set_tcp4, set_tcp6, set_udp6, set_ipv4}
use libant.Net.Pseudo.{IsSealed, pseudo4, pseudo6}
use libant.Net.Icmp.{set_ipv4-icmp}
use libant.Checksum.Sum.{sum16}
use libant.Net.Tcp.{set_tcp4-IsSealed, set_tcp6-IsSealed, set_udp6-IsSealed}
use libant.Net.Ipv4.{set_ipv4-header}

zeros-IsBytes : (n : ℕ) → IsBytes (replicate n 0)
zeros-IsBytes zero = tt
zeros-IsBytes (suc n) = (omega arith, zeros-IsBytes n)

-- A UDP packet of 28 bytes over IPv4.
abbrev packet : List ℕ
packet = 69 ∷ 0 ∷ 0 ∷ 28 ∷ 0 ∷ 1 ∷ 0 ∷ 0 ∷ 64 ∷ 17 ∷ replicate 18 0

packet-IsBytes : IsBytes packet
packet-IsBytes = (
  omega arith,
  (
    omega arith,
    (
      omega arith,
      (
        omega arith,
        (
          omega arith,
          (
            omega arith,
            (omega arith, (omega arith, (omega arith, (omega arith, zeros-IsBytes 18)))),
          ),
        ),
      ),
    ),
  ),
)

set_tcp4-IsSealed_example :
    ((20 < 20) × (set_tcp4 pc packet (replicate 20 0) 20 ≡ some (false, replicate 20 0)))
    ⊎ ((out : List ℕ) × (20 ≤ 20)
        × (set_tcp4 pc packet (replicate 20 0) 20 ≡ some (true, out))
        × IsSealed pc.system_endian (pseudo4 packet 20) 16 (replicate 20 0) out)
set_tcp4-IsSealed_example =
    set_tcp4-IsSealed pc pc-IsPlatform packet (replicate 20 0) 20 packet-IsBytes (omega arith)
      (zeros-IsBytes 20) refl (omega arith)

set_tcp6-IsSealed_example :
    ((20 < 20) × (set_tcp6 pc (replicate 40 0) (replicate 20 0) 20 ≡ some (false, replicate 20 0)))
    ⊎ ((out : List ℕ) × (20 ≤ 20)
        × (set_tcp6 pc (replicate 40 0) (replicate 20 0) 20 ≡ some (true, out))
        × IsSealed pc.system_endian (pseudo6 6 (replicate 40 0) 20) 16 (replicate 20 0) out)
set_tcp6-IsSealed_example =
    set_tcp6-IsSealed pc pc-IsPlatform (replicate 40 0) (replicate 20 0) 20 (zeros-IsBytes 40)
      (omega arith) (zeros-IsBytes 20) refl (omega arith)

set_udp6-IsSealed_example :
    ((8 < 8) × (set_udp6 pc (replicate 40 0) (replicate 8 0) 8 ≡ some (false, replicate 8 0)))
    ⊎ ((out : List ℕ) × (8 ≤ 8)
        × (set_udp6 pc (replicate 40 0) (replicate 8 0) 8 ≡ some (true, out))
        × IsSealed pc.system_endian (pseudo6 17 (replicate 40 0) 8) 6 (replicate 8 0) out)
set_udp6-IsSealed_example =
    set_udp6-IsSealed pc pc-IsPlatform (replicate 40 0) (replicate 8 0) 8 (zeros-IsBytes 40)
      (omega arith) (zeros-IsBytes 8) refl (omega arith)

set_ipv4-header_example :
    (ok : Bool) × (out : List ℕ) × (set_ipv4 pc 28 packet 28 ≡ some (ok, out))
    × (length out ≡ 28)
    × (checksum16 pc.system_endian (take (header_length packet) out) ≡ some (2 ^ 16 - 1))
set_ipv4-header_example =
    set_ipv4-header pc pc-IsPlatform 28 (omega arith) packet 28 refl packet-IsBytes (omega arith)
      (omega arith) refl (omega arith)

-- An ICMP message of 28 zero bytes over IPv4.
abbrev echo : List ℕ
echo = 69 ∷ 0 ∷ 0 ∷ 48 ∷ 0 ∷ 1 ∷ 0 ∷ 0 ∷ 64 ∷ 1 ∷ replicate 38 0

echo-IsBytes : IsBytes echo
echo-IsBytes = (
  omega arith,
  (
    omega arith,
    (
      omega arith,
      (
        omega arith,
        (
          omega arith,
          (
            omega arith,
            (omega arith, (omega arith, (omega arith, (omega arith, zeros-IsBytes 38)))),
          ),
        ),
      ),
    ),
  ),
)

set_ipv4-icmp_example :
    (out : List ℕ) × (set_ipv4 pc 28 echo 48 ≡ some (true, out))
    × ((checksum16 pc.system_endian (drop (header_length echo) out) ≡ some (2 ^ 16 - 1))
        ⊎ (sum16 pc.system_endian (drop (header_length echo) out) ≡ 0))
set_ipv4-icmp_example =
    set_ipv4-icmp pc pc-IsPlatform 28 (omega arith) echo 48 refl echo-IsBytes (omega arith)
      (omega arith) refl (omega arith) refl
