-- ===== src/Ports/Agree.antt =====
-- The functions that find a header and those that read its ports agree.
use libant.Common.{ℕ, zero, suc, ◌+◌, ◌-◌, ◌≤◌, ◌≡◌, inl, inr, refl, sym, ap, arith}
use libant.Common.{
  Bool-cases, ltb, leb, ◌==◌, ◌&&◌, ◌||◌, not, if◌then◌else◌, Bool, true, false, List, get_or,
  slice, Option, none, some,
}
use libant.Endian.{Endian, loaded}
use libant.Net.{header_length}
use libant.Ports.{
  is_extension, extension_len, walk, is_port_protocol, header_size, located, locate6, port_at,
  port6,
}
use libant.Ports.{port4, locate_udp4}
use mathlib.Core.Option.{some-injective}
use mathlib.Core.Option

-- What stops the search for one protocol stops the search for both.
walk_agree :
    (proto : ℕ) (packet : List ℕ) (fuel next base len n b l : ℕ)
    → is_port_protocol proto ≡ true
    → walk (λ m. m == proto) packet fuel next base len ≡ some (some (n, b, l))
    → walk is_port_protocol packet fuel next base len ≡ some (some (n, b, l))
unfolding walk
walk_agree proto packet zero next base len n b l port h = absurd (ground arith)
walk_agree proto packet (suc fuel) next base len n b l port h =
    let ext : ℕ = extension_len next (get_or packet (base + 1) 0) in
    elim (Bool-cases (next == proto)) [
      | inl stops ↦
          let both : is_port_protocol next ≡ true = ground arith in rw both (rw stops at h)
      | inr on ↦ elim (Bool-cases (is_extension next && ltb 8 len && ltb ext len)) [
        | inr ends ↦ absurd (not_found (rw (on, ends) at h))
        | inl goes ↦
            let neither : is_port_protocol next ≡ false = ground arith in
            rw (neither, goes)
              (walk_agree proto packet fuel (get_or packet base 0) (base + ext) (len - ext) n b l
                port (rw (on, goes) at h))
      ]
    ]
  where
    not_found : {x : ℕ × ℕ × ℕ} → some none ≡ some (some x) → ⊥
    not_found e = ground arith

-- If the search for a TCP or UDP header in an IPv6 packet finds one, the port of the packet, source
-- or destination, is read from that header.
pub locate6-port6 :
    (e : Endian) (offset proto : ℕ) (packet : List ℕ) (len base rest : ℕ)
    → is_port_protocol proto ≡ true
    → locate6 proto packet len ≡ some (some (base, rest))
    → port6 e offset packet len ≡ some (loaded e (slice packet (base + offset) 2))
unfolding locate6 port6
locate6-port6 e offset proto packet len base rest port h = elim (Bool-cases (leb len 40)) [
  | inl short ↦ absurd (nothing (rw short at h))
  | inr long ↦ rw long (
      read (walk (λ m. m == proto) packet len (get_or packet 6 0) 40 (len - 40)) refl
        (rw long at h))
]
  where
    nothing : ◌≡◌ {A = Option (Option (ℕ × ℕ))} (some none) (some (some (base, rest))) → ⊥
    nothing eq = ground arith

    read :
        (w : Option (Option (ℕ × ℕ × ℕ)))
        → walk (λ m. m == proto) packet len (get_or packet 6 0) 40 (len - 40) ≡ w
        → Option.map located w ≡ some (some (base, rest))
        → Option.map
            (port_at e offset packet)
            (walk is_port_protocol packet len (get_or packet 6 0) 40 (len - 40))
          ≡ some (loaded e (slice packet (base + offset) 2))
    read none eq found = absurd (ground arith)
    read (some none) eq found = absurd (nothing found)
    read (some (some (n, b, l))) eq found =
        rw (walk_agree proto packet len (get_or packet 6 0) 40 (len - 40) n b l port eq)
          (fits (leb (header_size n) l) refl found)
      where
        fits :
            (t : Bool)
            → leb (header_size n) l ≡ t
            → ◌≡◌ {A = Option (Option (ℕ × ℕ))}
                (some (if t then some (b, l) else none))
                (some (some (base, rest)))
            → some (if leb (header_size n) l then loaded e (slice packet (b + offset) 2) else 0)
              ≡ some (loaded e (slice packet (base + offset) 2))
        fits true eq found =
            let pairs : ◌≡◌ {A = ℕ × ℕ} (b, l) (base, rest) =
              some-injective _ _ (some-injective _ _ found) in
            rw eq (ap (λ (x : ℕ × ℕ). some (loaded e (slice packet (x.0 + offset) 2))) pairs)
        fits false eq found = absurd (nothing found)

-- If the search for a UDP header in an IPv4 packet finds one, it is inside of the packet with room for
-- the UDP header, and the port, source or destination, is read from it.
locate_udp4-port4 :
    (e : Endian) (offset : ℕ) (packet : List ℕ) (len base rest : ℕ)
    → locate_udp4 packet len ≡ some (base, rest)
    → (port4 e offset packet len ≡ loaded e (slice packet (base + offset) 2))
      × (base ≡ header_length packet)
      × (base + rest ≡ len)
      × (8 ≤ rest)
unfolding locate_udp4 port4
locate_udp4-port4 e offset packet len base rest h =
    let n : ℕ = header_length packet in
    elim (Bool-cases (leb len 20 || not (get_or packet 9 0 == 17))) [
      | inl refused ↦ absurd (nothing (rw refused at h))
      | inr udp ↦ elim (Bool-cases (leb (n + 8) len)) [
        | inr short ↦ absurd (nothing (rw (udp, short) at h))
        | inl fits ↦
            let pairs : ◌≡◌ {A = ℕ × ℕ} (n, len - n) (base, rest) =
              some-injective _ _ (rw (udp, fits) at h) in
            let at_base : n ≡ base = ap (λ (x : ℕ × ℕ). x.0) pairs in
            let length_left : len - n ≡ rest = ap (λ (x : ℕ × ℕ). x.1) pairs in
            let room : n + 8 ≤ len = ground arith in
            let long : (leb len 20 || leb len n) ≡ false = ground arith in
            let proto : (get_or packet 9 0 == 17) ≡ true = ground arith in
            (
              rw (long, proto, fits) (ap (λ b. loaded e (slice packet (b + offset) 2)) at_base),
              sym at_base,
              omega arith,
              omega arith,
            )
      ]
    ]
  where
    nothing : ◌≡◌ {A = Option (ℕ × ℕ)} none (some (base, rest)) → ⊥
    nothing eq = ground arith
