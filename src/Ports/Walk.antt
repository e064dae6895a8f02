-- ===== src/Ports/Walk.antt =====
-- The loop over the extension headers ends, stays inside of the packet, and follows the headers.
use libant.Common.{ℕ, zero, suc, ◌+◌, ◌-◌, ◌≤◌, ◌<◌, ◌≡◌, ◌⊎◌, inl, inr, refl, arith}
use libant.Common.{Bool-cases, ltb, leb, ◌==◌, ◌&&◌, Bool, true, List, get_or, none, some}
use libant.Ports.{is_extension, extension_len, walk, header_size, locate6}
use libant.Ports.{is_port_protocol, port6}
use libant.Endian.{Endian, loaded}
use libant.Common.{slice}
use mathlib.Core.Path.{subst}

-- One header leads to another through the extension headers between them, each inside of the packet.
pub data Reaches (packet : List ℕ) : ℕ → ℕ → ℕ → ℕ → ℕ → ℕ → Type 0 where
  here : {next base len : ℕ} → Reaches packet next base len next base len
  behind :
      {next base len n b l : ℕ}
      → is_extension next ≡ true
      → extension_len next (get_or packet (base + 1) 0) < len
      → Reaches packet
          (get_or packet base 0)
          (base + extension_len next (get_or packet (base + 1) 0))
          (len - extension_len next (get_or packet (base + 1) 0))
          n
          b
          l
      → Reaches packet next base len n b l

Reaches-inside :
    (packet : List ℕ) {next base len n b l : ℕ}
    → Reaches packet next base len n b l
    → (b + l ≡ base + len) × (base ≤ b)
Reaches-inside packet Reaches.here = (refl, omega arith)
Reaches-inside packet (Reaches.behind ext inside rest) =
    let (whole, le) = Reaches-inside packet rest in (omega arith, omega arith)

-- What the loop finds is reached; and it is found if the fuel exceeds the length.
walk_ends :
    (stop : ℕ → Bool) (packet : List ℕ) (fuel next base len : ℕ)
    → len < fuel
    → (walk stop packet fuel next base len ≡ some none)
      ⊎ ((n : ℕ) × (b : ℕ) × (l : ℕ) × (walk stop packet fuel next base len ≡ some (some (n, b, l)))
          × (stop n ≡ true)
          × Reaches packet next base len n b l)
unfolding walk
walk_ends stop packet zero next base len h = absurd (omega arith)
walk_ends stop packet (suc fuel) next base len h =
    let ext : ℕ = extension_len next (get_or packet (base + 1) 0) in
    elim (Bool-cases (stop next)) [
      | inl stops ↦ inr (next, base, len, rw stops refl, stops, Reaches.here)
      | inr on ↦ elim (Bool-cases (is_extension next && ltb 8 len && ltb ext len)) [
        | inr ends ↦ inl (rw (on, ends) refl)
        | inl goes ↦
            let inside : ext < len = ground arith in
            let is_ext : is_extension next ≡ true = ground arith in
            let some_len : 0 < ext = ground arith in
            elim (walk_ends stop packet fuel (get_or packet base 0) (base + ext) (len - ext)
              (omega arith)) [
                | inl eq ↦ inl (rw (on, goes) eq)
                | inr (n, b, l, eq, stops, reaches) ↦
                    inr (n, b, l, rw (on, goes) eq, stops, Reaches.behind is_ext inside reaches)
              ]
      ]
    ]

-- The search for a TCP or UDP header in an IPv6 packet of `len` bytes ends. What it finds is reached
-- from the IPv6 header through extension headers, lies inside of the packet behind the first 40
-- bytes, reaches to the packet's end and has room for the transport header.
pub locate6_lem :
    (proto : ℕ) (packet : List ℕ) (len : ℕ)
    → (locate6 proto packet len ≡ some none)
      ⊎ ((base : ℕ) × (rest : ℕ) × (locate6 proto packet len ≡ some (some (base, rest)))
          × Reaches packet (get_or packet 6 0) 40 (len - 40) proto base rest
          × (40 ≤ base)
          × (base + rest ≡ len)
          × (header_size proto ≤ rest))
unfolding locate6
locate6_lem proto packet len = elim (Bool-cases (leb len 40)) [
  | inl short ↦ inl (rw short refl)
  | inr long ↦
      let more : 40 < len = ground arith in
      elim (walk_ends (λ n. n == proto) packet len (get_or packet 6 0) 40 (len - 40)
        (omega arith)) [
          | inl eq ↦ inl (rw (long, eq) refl)
          | inr (n, b, l, eq, stops, reaches) ↦
              let same : n ≡ proto = ground arith in
              let (whole, le) = Reaches-inside packet reaches in
              elim (Bool-cases (leb (header_size n) l)) [
                | inr small ↦ inl (rw (long, eq, small) refl)
                | inl fits ↦
                    let room : header_size n ≤ l = ground arith in
                    inr (
                      b,
                      l,
                      rw (long, eq, fits) refl,
                      subst (λ m. Reaches packet (get_or packet 6 0) 40 (len - 40) m b l) same
                          reaches,
                      le,
                      omega arith,
                      subst (λ m. header_size m ≤ l) same room,
                    )
              ]
        ]
]

-- Reading a port of an IPv6 packet ends, for every packet and length, with 0 or with the two bytes
-- at the port's offset in a TCP or UDP header that the extension headers lead to.
pub port6_lem :
    (e : Endian) (offset : ℕ) (packet : List ℕ) (len : ℕ)
    → (port6 e offset packet len ≡ some 0)
      ⊎ ((proto : ℕ) × (base : ℕ) × (rest : ℕ) × (is_port_protocol proto ≡ true)
          × Reaches packet (get_or packet 6 0) 40 (len - 40) proto base rest
          × (header_size proto ≤ rest)
          × (base + rest ≡ len)
          × (port6 e offset packet len ≡ some (loaded e (slice packet (base + offset) 2))))
unfolding port6
port6_lem e offset packet len = elim (Bool-cases (leb len 40)) [
  | inl short ↦ inl (rw short refl)
  | inr long ↦
      let more : 40 < len = ground arith in
      elim (walk_ends is_port_protocol packet len (get_or packet 6 0) 40 (len - 40) (omega arith)) [
        | inl eq ↦ inl (rw (long, eq) refl)
        | inr (n, b, l, eq, stops, reaches) ↦
            let (whole, le) = Reaches-inside packet reaches in
            elim (Bool-cases (leb (header_size n) l)) [
              | inr small ↦ inl (rw (long, eq, small) refl)
              | inl fits ↦
                  let room : header_size n ≤ l = ground arith in
                  inr (n, b, l, stops, reaches, room, omega arith, rw (long, eq, fits) refl)
            ]
      ]
]
