-- ===== src/Net/Ipv4.antt =====
-- ComputeAndSetChecksum for a whole IPv4 packet.
use libant.Common.{
  take-store_at, ℕ, zero, suc, ◌+◌, ◌-◌, ◌*◌, ◌%◌, ◌^◌, ◌≤◌, ◌<◌, ◌≡◌, ◌≢◌, ◌⊎◌, inl, inr, refl,
  sym, ap, ◌∙◌, arith, List, [], ◌∷◌, ◌++◌,
}
use libant.Common.{
  length-store_at, append-nil, Bool-cases, ltb, leb, ◌==◌, ◌||◌, not, Bool, length, take, drop,
  slice, get_or, length-take, length-drop, length-append, Option, some, true, false, if◌then◌else◌,
}
use libant.Endian.{Endian, stored, loaded, Platform, IsPlatform}
use libant.Endian.Bytes.{IsBytes, take-IsBytes, drop-IsBytes}
use libant.Checksum.{checksum16}
use libant.Checksum.Verify.{checksum16-stored, bytes_of, append-IsBytes}
use libant.Net.{complement, store16, header_length, set_tcp4, set_payload, set_ipv4}
use libant.Net.Tcp.{set_tcp4-IsSealed}
use libant.Net.Field.{patched, set_sum-HasSum, zeroed_lem, filled_lem, length-patched}
use mathlib.Core.Option

-- A packet that is shorter than an IPv4 header, or than the header that it declares, or whose length
-- is not the declared one, is refused and left as it is.
set_ipv4-false :
    (p : Platform) (sizeof_icmp : ℕ) (packet : List ℕ) (len : ℕ)
    → (len < 20)
      ⊎ ((len < header_length packet) ⊎ (len ≢ p.ntohs (loaded p.system_endian (slice packet 2 2))))
    → set_ipv4 p sizeof_icmp packet len ≡ some (false, packet)
unfolding set_ipv4
set_ipv4-false p sizeof_icmp packet len h = ground arith

take-over :
    (n a b : ℕ) (xs ys : List ℕ) → length xs ≡ a → n ≡ a + b → take n (xs ++ ys) ≡ xs ++ take b ys
take-over n a b [] ys h e = ap (λ m. take m ys) (omega arith)
take-over zero a b (x ∷ xs) ys h e = absurd (omega arith)
take-over (suc n) zero b (x ∷ xs) ys h e = absurd (omega arith)
take-over (suc n) (suc a) b (x ∷ xs) ys h e =
    ap (◌∷◌ x) (take-over n a b xs ys (omega arith) (omega arith))

-- The header of a packet whose header checksum is replaced.
take-patched :
    (n a b : ℕ) (mem : List ℕ)
    → 12 ≤ n
    → 12 ≤ length mem
    → take n (patched 10 (a ∷ b ∷ []) mem) ≡ take 10 mem ++ (a ∷ b ∷ take (n - 12) (drop 12 mem))
take-patched n a b mem h long =
    take-over n 10 (n - 10) (take 10 mem) (a ∷ b ∷ drop 12 mem) (length-take 10 mem ∙ omega arith)
      (omega arith)
    ∙ ap (λ (r : List ℕ). take 10 mem ++ r)
        (take-over (n - 10) 2 (n - 12) (a ∷ b ∷ []) (drop 12 mem) refl (omega arith))

pub patched-IsBytes :
    (e : Endian) (i v : ℕ) (mem : List ℕ) → IsBytes mem → IsBytes (patched i (stored e 2 v) mem)
patched-IsBytes e i v mem h =
    let (a, b, eq, small) = bytes_of e v in
    append-IsBytes (take i mem) (stored e 2 v ++ drop (i + 2) mem) (take-IsBytes i mem h)
      (append-IsBytes (stored e 2 v) (drop (i + 2) mem) (rw eq small) (drop-IsBytes (i + 2) mem h))

-- Whatever the protocol, the payload's checksum is set behind the header.
abbrev Keeps : ℕ → ℕ → List ℕ → Option (Bool × List ℕ) → Type 0
Keeps n len mem result =
    (ok : Bool) × (out : List ℕ) × (result ≡ some (ok, out))
    × (length out ≡ len)
    × (take n out ≡ take n mem)

accepted :
    (len n ip_len : ℕ) (x : Option (Bool × List ℕ)) {y : Option (Bool × List ℕ)}
    → 20 ≤ len
    → n ≤ len
    → len ≡ ip_len
    → (if ltb len 20 then x else if ltb len n || not (len == ip_len) then x else y) ≡ y
accepted len n ip_len x h inside declared = ground arith

module _ (p : Platform) (q : IsPlatform p) (sizeof_icmp : ℕ) (icmp_size : 4 ≤ sizeof_icmp) where
  tcp-Keeps :
      (n len : ℕ) (mem : List ℕ)
      → 20 ≤ n
      → n ≤ len
      → length mem ≡ len
      → IsBytes mem
      → len < 2 ^ 31
      → Keeps n len mem (
          Option.map
            (λ (r : Bool × List ℕ). (r.0, take n mem ++ r.1))
            (set_tcp4 p mem (drop n mem) (len - n)))
  tcp-Keeps n len mem h inside whole bytes small =
      elim (set_tcp4-IsSealed p q mem (drop n mem) (len - n) bytes (omega arith)
        (drop-IsBytes n mem bytes) (length-drop n mem ∙ omega arith) (omega arith)) [
          | inl (short, eq) ↦ joined false (drop n mem) eq refl
          | inr (out, enough, eq, (c, shape, size, full)) ↦ joined true out eq size
        ]
    where
      joined :
          (ok : Bool) (out : List ℕ)
          → set_tcp4 p mem (drop n mem) (len - n) ≡ some (ok, out)
          → length out ≡ length (drop n mem)
          → Keeps n len mem (
              Option.map
                (λ (r : Bool × List ℕ). (r.0, take n mem ++ r.1))
                (set_tcp4 p mem (drop n mem) (len - n)))
      joined ok out eq size = (
        ok,
        take n mem ++ out,
        ap (Option.map (λ (r : Bool × List ℕ). (r.0, take n mem ++ r.1))) eq,
        length-append (take n mem) out ∙ omega (arith, length-take n mem, length-drop n mem),
        take-over n n 0 (take n mem) out (length-take n mem ∙ omega arith) (omega arith)
            ∙ append-nil (take n mem),
      )

  set_payload-Keeps :
      (k n len : ℕ) (mem : List ℕ)
      → n ≡ k * 4
      → 20 ≤ n
      → n ≤ len
      → length mem ≡ len
      → IsBytes mem
      → len < 2 ^ 31
      → Keeps n len mem (set_payload p sizeof_icmp n len mem)
  unfolding set_payload
  set_payload-Keeps k n len mem four h inside whole bytes small =
      let e : Endian = p.system_endian in
      elim (Bool-cases (get_or mem 9 0 == 1)) [
        | inl icmp ↦ elim (Bool-cases (leb (n + sizeof_icmp) len)) [
          | inl fits ↦
              let room : n + sizeof_icmp ≤ len = ground arith in
              let (out, eq, (c, shape, size, full)) =
                set_sum-HasSum p 0 (n + 2) (k * 2 + 1) len mem (omega arith) (omega arith) whole
                  bytes (omega arith) in
              (
                true,
                out,
                rw (icmp, fits) eq,
                size ∙ whole,
                ap (take n) (shape ∙ sym (filled_lem e (n + 2) (complement c) mem (omega arith)))
                    ∙ take-store_at n (n + 2) (store16 e (n + 2) 0 mem) (stored e 2 (complement c))
                        (omega arith)
                    ∙ take-store_at n (n + 2) mem (stored e 2 0) (omega arith),
              )
          | inr short ↦ (false, mem, rw (icmp, short) refl, whole, refl)
        ]
        | inr other ↦ elim (Bool-cases (get_or mem 9 0 == 17)) [
          | inl udp ↦ elim (Bool-cases (leb (n + 8) len)) [
            | inl fits ↦ (
              true,
              store16 e (n + 6) 0 mem,
              rw (other, udp, fits) refl,
              length-store_at mem (n + 6) (stored e 2 0) ∙ whole,
              take-store_at n (n + 6) mem (stored e 2 0) (omega arith),
            )
            | inr short ↦ (false, mem, rw (other, udp, short) refl, whole, refl)
          ]
          | inr other2 ↦ elim (Bool-cases (get_or mem 9 0 == 6)) [
            | inl tcp ↦ rw (other, other2, tcp) (tcp-Keeps n len mem h inside whole bytes small)
            | inr other3 ↦ (false, mem, rw (other, other2, other3) refl, whole, refl)
          ]
        ]
      ]

  -- A packet that passes the checks goes on to the switch with a header that sums to all ones.
  pub set_ipv4-set_payload :
      (packet : List ℕ) (len : ℕ)
      → length packet ≡ len
      → IsBytes packet
      → 20 ≤ header_length packet
      → header_length packet ≤ len
      → len ≡ p.ntohs (loaded p.system_endian (slice packet 2 2))
      → len < 2 ^ 31
      → (c : ℕ) × (set_ipv4 p sizeof_icmp packet len
          ≡ set_payload p sizeof_icmp
              (header_length packet)
              len
              (patched 10 (stored p.system_endian 2 (complement c)) packet))
        × (checksum16 p.system_endian (
              take
                (header_length packet)
                (patched 10 (stored p.system_endian 2 (complement c)) packet))
            ≡ some (2 ^ 16 - 1))
  unfolding set_ipv4 Option.bind
  set_ipv4-set_payload packet len whole bytes h inside declared small =
      let e : Endian = p.system_endian in
      let n : ℕ = header_length packet in
      let back : List ℕ = take (n - 12) (drop 12 packet) in
      let (c, eq, full) =
        checksum16-stored e 5 (take 10 packet) back (length-take 10 packet ∙ omega arith)
          (take-IsBytes 10 packet bytes)
          (take-IsBytes (n - 12) (drop 12 packet) (drop-IsBytes 12 packet bytes))
          (omega (
            arith,
            length-take 10 packet,
            length-take (n - 12) (drop 12 packet),
            length-drop 12 packet,
          )) in
      let zeroed : take n (store16 e 10 0 packet) ≡ take 10 packet ++ (0 ∷ 0 ∷ back) =
        ap (take n) (zeroed_lem e 10 packet (omega arith))
        ∙ take-patched n 0 0 packet (omega arith) (omega arith) in
      let (a, b, field, _) = bytes_of e (complement c) in
      let header : take n (patched 10 (stored e 2 (complement c)) packet)
          ≡ take 10 packet ++ (stored e 2 (complement c) ++ back) =
        ap (λ (f : List ℕ). take n (patched 10 f packet)) field
        ∙ take-patched n a b packet (omega arith) (omega arith)
        ∙ ap (λ (f : List ℕ). take 10 packet ++ (f ++ back)) (sym field) in
      let next : ℕ → Option (Bool × List ℕ) = λ d.
        set_payload p sizeof_icmp n len (store16 e 10 (complement d) (store16 e 10 0 packet)) in
      (
        c,
        accepted len n (p.ntohs (loaded e (slice packet 2 2))) (some (false, packet)) (omega arith)
              inside declared
            ∙ ap (λ (t : List ℕ). Option.bind (checksum16 e t) next) zeroed
            ∙ ap (λ (o : Option ℕ). Option.bind o next) eq
            ∙ ap (set_payload p sizeof_icmp n len)
                (filled_lem e 10 (complement c) packet (omega arith)),
        ap (checksum16 e) header ∙ full,
      )

  -- For a packet of bytes whose length is the declared one, below 2^31, and whose header is at least
  -- 20 bytes and inside of it: whatever the protocol and the outcome for the payload, the call ends,
  -- the length stays, and the header, its checksum included, sums to 0xFFFF.
  pub set_ipv4-header :
      (packet : List ℕ) (len : ℕ)
      → length packet ≡ len
      → IsBytes packet
      → 20 ≤ header_length packet
      → header_length packet ≤ len
      → len ≡ p.ntohs (loaded p.system_endian (slice packet 2 2))
      → len < 2 ^ 31
      → (ok : Bool) × (out : List ℕ) × (set_ipv4 p sizeof_icmp packet len ≡ some (ok, out))
        × (length out ≡ len)
        × (checksum16 p.system_endian (take (header_length packet) out) ≡ some (2 ^ 16 - 1))
  set_ipv4-header packet len whole bytes h inside declared small =
      let e : Endian = p.system_endian in
      let n : ℕ = header_length packet in
      let (c, eq, full) = set_ipv4-set_payload packet len whole bytes h inside declared small in
      let filled : List ℕ = patched 10 (stored e 2 (complement c)) packet in
      let (ok, out, done, size, same) =
        set_payload-Keeps (get_or packet 0 0 % 16) n len filled refl h inside
          (length-patched e 10 (complement c) packet (omega arith) ∙ whole)
          (patched-IsBytes e 10 (complement c) packet bytes) small in
      (ok, out, eq ∙ done, size, ap (checksum16 e) same ∙ full)
