-- ===== src/Net.antt =====
-- Packet checksums: src/net/checksum4.cpp and src/net/checksum6.cpp. A packet is the list of its
-- bytes; the layouts of its headers are those of the protocols, as in `ip`, `ip6_hdr`, `tcphdr`,
-- `udphdr` and `icmp`. A read behind the end of a list takes what is there or gives 0, and a store there
-- is dropped. The size of `icmp`, which depends on the system, is a parameter.
pub mod Field
pub mod Pseudo
pub mod Ipv4
pub mod Tcp
pub mod Icmp
mod Tests
use libant.Common.{ℕ, ◌+◌, ◌-◌, ◌*◌, ◌%◌, ◌^◌, ltb, leb, ◌==◌, ◌||◌, not, Bool, true, false}
use libant.Common.{
  if◌then◌else◌, List, [], ◌∷◌, ◌++◌, get_or, take, drop, slice, store_at, Option, some,
}
use libant.Endian.{Endian, stored, loaded, Platform, IntType, host_to_big_endian}
use libant.Checksum.{add_checksum, finish_checksum16, checksum16}
use mathlib.Core.Option

-- `~x` of 16 bits
abbrev pub complement : ℕ → ℕ
complement c = 2 ^ 16 - 1 - c

module _ (e : Endian) where
  abbrev pub store16 : ℕ → ℕ → List ℕ → List ℕ
  store16 i v mem = store_at mem i (stored e 2 v)

  abbrev pub load32 : ℕ → List ℕ → ℕ
  load32 i mem = loaded e (slice mem i 4)

-- `packet->ip_hl` shifted left by 2
abbrev pub header_length : List ℕ → ℕ
header_length packet = get_or packet 0 0 % 16 * 4

module _ (p : Platform) where
  -- The sum of the pseudo-header for TCP over IPv4.
  unfoldable pub pseudo_sum4 : List ℕ → ℕ → ℕ
  pseudo_sum4 ip len =
      let e = p.system_endian in
      (load32 e 12 ip + load32 e 16 ip + loaded e (0 ∷ 6 ∷ stored e 2 (p.htons (len % 2 ^ 16))))
      % 2 ^ 64

  -- The sum of the pseudo-header for the protocol `proto` over IPv6. `htonl` is the conversion of
  -- 32 bits to big endian.
  unfoldable pub pseudo_sum6 : ℕ → List ℕ → ℕ → ℕ
  pseudo_sum6 proto ip len =
      let e = p.system_endian in
      let src = load32 e 8 ip + load32 e 12 ip + load32 e 16 ip + load32 e 20 ip in
      let dst = load32 e 24 ip + load32 e 28 ip + load32 e 32 ip + load32 e 36 ip in
      (src
        + dst
        + host_to_big_endian p IntType.uint32 len
        + host_to_big_endian p IntType.uint32 proto)
      % 2 ^ 64

  -- A field of a transport header is set to zero, then to the complement of the checksum.
  unfoldable pub set_sum : ℕ → ℕ → ℕ → List ℕ → Option (Bool × List ℕ)
  set_sum sum i len mem =
      let e = p.system_endian in
      let zeroed = store16 e i 0 mem in
      Option.map (λ c. (true, store16 e i (complement c) zeroed))
        (finish_checksum16 (add_checksum e sum (take len zeroed)))

  -- `ComputeAndSetChecksum(const ip*, tcphdr*, uint32_t)`
  unfoldable pub set_tcp4 : List ℕ → List ℕ → ℕ → Option (Bool × List ℕ)
  set_tcp4 ip tcp len =
      if ltb len 20 then some (false, tcp) else set_sum (pseudo_sum4 ip len) 16 len tcp

  -- `ComputeAndSetChecksum(const ip6_hdr*, tcphdr*, uint32_t)`
  unfoldable pub set_tcp6 : List ℕ → List ℕ → ℕ → Option (Bool × List ℕ)
  set_tcp6 ip tcp len =
      if ltb len 20 then some (false, tcp) else set_sum (pseudo_sum6 6 ip len) 16 len tcp

  -- `ComputeAndSetChecksum(const ip6_hdr*, udphdr*, uint32_t)`
  unfoldable pub set_udp6 : List ℕ → List ℕ → ℕ → Option (Bool × List ℕ)
  set_udp6 ip udp len =
      if ltb len 8 then some (false, udp) else set_sum (pseudo_sum6 17 ip len) 6 len udp

module _ (p : Platform) (sizeof_icmp : ℕ) where
  -- The `switch` on the protocol; ICMP sums the whole packet.
  unfoldable pub set_payload : ℕ → ℕ → List ℕ → Option (Bool × List ℕ)
  set_payload header_len len packet =
      let proto = get_or packet 9 0 in
      let tcp = set_tcp4 p packet (drop header_len packet) (len - header_len) in
      if proto == 1
      then (if leb (header_len + sizeof_icmp) len
          then set_sum p 0 (header_len + 2) len packet
          else some (false, packet))
      else if proto == 17
      then (if leb (header_len + 8) len
          then some (true, store16 p.system_endian (header_len + 6) 0 packet)
          else some (false, packet))
      else if proto == 6
      then Option.map (λ (r : Bool × List ℕ). (r.0, take header_len packet ++ r.1)) tcp
      else some (false, packet)

  -- `ComputeAndSetChecksum(ip*, uint32_t)`
  unfoldable pub set_ipv4 : List ℕ → ℕ → Option (Bool × List ℕ)
  set_ipv4 packet len =
      let e = p.system_endian in
      let header_len = header_length packet in
      let ip_len = p.ntohs (loaded e (slice packet 2 2)) in
      let zeroed = store16 e 10 0 packet in
      if ltb len 20
      then some (false, packet)
      else if ltb len header_len || not (len == ip_len)
      then some (false, packet)
      else Option.bind (checksum16 e (take header_len zeroed))
          (λ c. set_payload header_len len (store16 e 10 (complement c) zeroed))
