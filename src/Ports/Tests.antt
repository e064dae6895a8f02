-- ===== src/Ports/Tests.antt =====
-- The witnesses of the properties of the search for transport headers.
use libant.Common.{
  ℕ, ◌+◌, ◌-◌, ◌≤◌, ◌≡◌, ◌⊎◌, refl, true, List, ◌∷◌, ◌++◌, replicate, get_or, slice, some, none,
}
use libant.Endian.{Endian, loaded}
use libant.Ports.{port4, port6, locate6, locate_udp4, header_size, is_port_protocol}
use libant.Ports.Walk.{Reaches, locate6_lem, port6_lem}
use libant.Ports.Agree.{locate6-port6}

-- UDP behind an IPv6 header and destination options of 8 bytes.
abbrev packet6 : List ℕ
packet6 =
    replicate 6 0
    ++ (60 ∷ replicate 33 0)
    ++ (17 ∷ 0 ∷ replicate 6 0)
    ++ (0 ∷ 53 ∷ 4 ∷ 1 ∷ replicate 4 0)

abbrev packet4 : List ℕ
packet4 = 69 ∷ replicate 8 0 ++ (17 ∷ replicate 10 0) ++ (0 ∷ 53 ∷ 4 ∷ 1 ∷ replicate 4 0)

locate6_lem_example :
    (locate6 17 packet6 56 ≡ some none)
    ⊎ ((base : ℕ) × (rest : ℕ) × (locate6 17 packet6 56 ≡ some (some (base, rest)))
        × Reaches packet6 (get_or packet6 6 0) 40 (56 - 40) 17 base rest
        × (40 ≤ base)
        × (base + rest ≡ 56)
        × (header_size 17 ≤ rest))
locate6_lem_example = locate6_lem 17 packet6 56

port6_lem_example :
    (port6 Endian.big_endian 2 packet6 56 ≡ some 0)
    ⊎ ((proto : ℕ) × (base : ℕ) × (rest : ℕ) × (is_port_protocol proto ≡ true)
        × Reaches packet6 (get_or packet6 6 0) 40 (56 - 40) proto base rest
        × (header_size proto ≤ rest)
        × (base + rest ≡ 56)
        × (port6 Endian.big_endian 2 packet6 56
            ≡ some (loaded Endian.big_endian (slice packet6 (base + 2) 2))))
port6_lem_example = port6_lem Endian.big_endian 2 packet6 56

found6 : locate6 17 packet6 56 ≡ some (some (48, 8))
unfolding locate6 libant.Ports.walk
found6 = refl

locate6-port6_example :
    port6 Endian.big_endian 2 packet6 56
    ≡ some (loaded Endian.big_endian (slice packet6 (48 + 2) 2))
locate6-port6_example = locate6-port6 Endian.big_endian 2 17 packet6 56 48 8 refl found6

found4 : locate_udp4 packet4 28 ≡ some (20, 8)
unfolding locate_udp4
found4 = refl
