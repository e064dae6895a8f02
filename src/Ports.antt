-- ===== src/Ports.antt =====
-- The search for the transport header of a packet: src/net/ip4.cpp, src/net/ip6.cpp,
-- src/net/udp4.cpp, src/net/udp6.cpp and src/net/tcp6.cpp. A packet is the list of its bytes and a
-- pointer into it an index. A read behind the end of the list gives 0; the guard `packetLen > 8` of
-- the source keeps the loop from such reads, and has no other effect here.
pub mod Walk
pub mod Agree
mod Tests
use libant.Common.{ℕ, zero, suc, ◌+◌, ◌-◌, ◌*◌, ltb, leb, ◌==◌, ◌&&◌, ◌||◌, not, Bool}
use libant.Common.{if◌then◌else◌, List, get_or, slice, Option, none, some}
use libant.Endian.{Endian, loaded}
use libant.Net.{header_length}
use mathlib.Core.Option

-- Hop-by-hop options, routing and destination options, and the authentication header.
abbrev pub is_extension : ℕ → Bool
is_extension next = (next == 0) || (next == 43) || (next == 60) || (next == 51)

-- `extLen`
abbrev pub extension_len : ℕ → ℕ → ℕ
extension_len next field = if next == 51 then field * 4 + 8 else (field * 8 + 8)

-- The loop over the extension headers, on fuel, for the protocols at which it stops: `none` when the
-- fuel runs out, `some none` when the loop ends at another header, else the protocol with
-- `basePtr` and the length from there on.
module _ (stop : ℕ → Bool) (packet : List ℕ) where
  pub walk : ℕ → ℕ → ℕ → ℕ → Option (Option (ℕ × ℕ × ℕ))
  walk zero next base len = none
  walk (suc fuel) next base len =
      let ext_len = extension_len next (get_or packet (base + 1) 0) in
      let rest = walk fuel (get_or packet base 0) (base + ext_len) (len - ext_len) in
      if stop next
      then some (some (next, base, len))
      else if is_extension next && ltb 8 len && ltb ext_len len
      then rest
      else some none

abbrev pub is_port_protocol : ℕ → Bool
is_port_protocol next = (next == 6) || (next == 17)

abbrev pub header_size : ℕ → ℕ
header_size proto = if proto == 6 then 20 else 8

module _ (e : Endian) (offset : ℕ) (packet : List ℕ) where
  -- The port at `offset` in the transport header: 0 for the source, 2 for the destination.
  abbrev pub port_at : Option (ℕ × ℕ × ℕ) → ℕ
  port_at none = 0
  port_at (some (proto, base, len)) =
      if leb (header_size proto) len then loaded e (slice packet (base + offset) 2) else 0

  -- `GetSourcePort` and `GetDestinationPort` for IPv6
  unfoldable pub port6 : ℕ → Option ℕ
  port6 len =
      if leb len 40
      then some 0
      else Option.map port_at (walk is_port_protocol packet len (get_or packet 6 0) 40 (len - 40))

  -- `GetSourcePort` and `GetDestinationPort` for IPv4
  unfoldable pub port4 : ℕ → ℕ
  port4 len =
      let header_len = header_length packet in
      let proto = get_or packet 9 0 in
      let port = loaded e (slice packet (header_len + offset) 2) in
      if leb len 20 || leb len header_len
      then 0
      else if proto == 17
      then (if leb (header_len + 8) len then port else 0)
      else if proto == 6
      then (if leb (header_len + 20) len then port else 0)
      else 0

-- `packet.Header` and `packet.Length`, if the header is found and fits.
abbrev pub located : Option (ℕ × ℕ × ℕ) → Option (ℕ × ℕ)
located none = none
located (some (proto, base, len)) = if leb (header_size proto) len then some (base, len) else none

-- `LocateUdpHeader` and `LocateTcpHeader` for IPv6, by the protocol.
unfoldable pub locate6 : ℕ → List ℕ → ℕ → Option (Option (ℕ × ℕ))
locate6 proto packet len =
    if leb len 40
    then some none
    else Option.map located (walk (λ n. n == proto) packet len (get_or packet 6 0) 40 (len - 40))

-- `LocateUdpHeader` for IPv4
unfoldable pub locate_udp4 : List ℕ → ℕ → Option (ℕ × ℕ)
locate_udp4 packet len =
    let header_len = header_length packet in
    if leb len 20 || not (get_or packet 9 0 == 17)
    then none
    else if leb (header_len + 8) len
    then some (header_len, len - header_len)
    else none
