-- ===== src/Net/Icmp.antt =====
-- ICMP: the code sums the whole packet, the protocol the message only.
use libant.Common.{
  take-store_at, ℕ, zero, suc, ◌+◌, ◌-◌, ◌*◌, ◌%◌, ◌^◌, ◌≤◌, ◌<◌, ◌≡◌, ◌⊎◌, inl, inr, refl, sym, ap,
  ◌∙◌, arith, List, [], ◌∷◌, ◌++◌,
}
use libant.Common.{
  Bool-cases, leb, ◌==◌, length, take, drop, slice, get_or, length-take, length-drop,
  take-append-drop, some, true,
}
use libant.Endian.{Endian, stored, loaded, Platform, IsPlatform}
use libant.Endian.Bytes.{IsBytes, take-IsBytes, drop-IsBytes}
use libant.Checksum.{checksum16}
use libant.Checksum.Sum.{sum16, sum16-append}
use libant.Checksum.Verify.{finish-add}
use libant.Net.{complement, store16, header_length, set_payload, set_ipv4}
use libant.Net.Field.{patched, set_sum-HasSum, filled_lem, length-patched}
use libant.Net.Ipv4.{set_ipv4-set_payload, patched-IsBytes}
use mathlib.Core.Option.{some-injective}
use mathlib.Core.Path.{subst}

-- What a checksum of all ones says of the sum.
sums_to_zero :
    (e : Endian) (bytes : List ℕ)
    → IsBytes bytes
    → length bytes < 2 ^ 31
    → checksum16 e bytes ≡ some (2 ^ 16 - 1)
    → sum16 e bytes % (2 ^ 16 - 1) ≡ 0
unfolding checksum16
sums_to_zero e bytes h small eq =
    let (r, eq1, narrow, same, le, positive) = finish-add e 0 bytes h (omega arith) in
    let agree : r ≡ 2 ^ 16 - 1 = some-injective r (2 ^ 16 - 1) (sym eq1 ∙ eq) in omega arith

all_ones_or_zero :
    (e : Endian) (bytes : List ℕ)
    → IsBytes bytes
    → length bytes < 2 ^ 31
    → sum16 e bytes % (2 ^ 16 - 1) ≡ 0
    → (checksum16 e bytes ≡ some (2 ^ 16 - 1)) ⊎ (sum16 e bytes ≡ 0)
unfolding checksum16
all_ones_or_zero e bytes h small eq =
    let (r, eq1, narrow, same, le, positive) = finish-add e 0 bytes h (omega arith) in
    elim (Bool-cases (sum16 e bytes == 0)) [
      | inl none_set ↦ inr (ground arith)
      | inr some_set ↦
          let more : 0 < sum16 e bytes = ground arith in
          inl (eq1 ∙ ap some (omega (arith, positive (omega arith))))
    ]

message :
    (e : Endian) (k n : ℕ) (out : List ℕ)
    → n ≡ 2 * k
    → n ≤ length out
    → IsBytes out
    → length out < 2 ^ 31
    → checksum16 e (take n out) ≡ some (2 ^ 16 - 1)
    → checksum16 e out ≡ some (2 ^ 16 - 1)
    → (checksum16 e (drop n out) ≡ some (2 ^ 16 - 1)) ⊎ (sum16 e (drop n out) ≡ 0)
message e k n out even inside h small header whole =
    all_ones_or_zero e (drop n out) (drop-IsBytes n out h) (omega (arith, length-drop n out)) (
      omega (
        arith,
        ap (sum16 e) (sym (take-append-drop n out))
            ∙ sum16-append e k (take n out) (drop n out) (length-take n out ∙ omega arith),
        sums_to_zero e (take n out) (take-IsBytes n out h) (omega (arith, length-take n out))
            header,
        sums_to_zero e out h small whole,
      ))

get_or-take-append :
    (i n : ℕ) (mem rest : List ℕ)
    → i < n
    → n ≤ length mem
    → get_or (take n mem ++ rest) i 0 ≡ get_or mem i 0
get_or-take-append i zero mem rest h inside = absurd (omega arith)
get_or-take-append i (suc n) [] rest h inside = absurd (omega arith)
get_or-take-append zero (suc n) (x ∷ mem) rest h inside = refl
get_or-take-append (suc i) (suc n) (x ∷ mem) rest h inside =
    get_or-take-append i n mem rest (omega arith) (omega arith)

module _ (p : Platform) (q : IsPlatform p) (sizeof_icmp : ℕ) (icmp_size : 4 ≤ sizeof_icmp) where
  icmp_payload :
      (k n len : ℕ) (mem : List ℕ)
      → n ≡ k * 4
      → length mem ≡ len
      → IsBytes mem
      → len < 2 ^ 31
      → get_or mem 9 0 ≡ 1
      → n + sizeof_icmp ≤ len
      → checksum16 p.system_endian (take n mem) ≡ some (2 ^ 16 - 1)
      → (out : List ℕ) × (set_payload p sizeof_icmp n len mem ≡ some (true, out))
        × ((checksum16 p.system_endian (drop n out) ≡ some (2 ^ 16 - 1))
            ⊎ (sum16 p.system_endian (drop n out) ≡ 0))
  unfolding set_payload checksum16
  icmp_payload k n len mem four whole bytes small icmp fits header =
      let e : Endian = p.system_endian in
      let (out, eq, (c, shape, size, full)) =
        set_sum-HasSum p 0 (n + 2) (k * 2 + 1) len mem (omega arith) (omega arith) whole bytes
          (omega arith) in
      let same : take n out ≡ take n mem =
        ap (take n) (shape ∙ sym (filled_lem e (n + 2) (complement c) mem (omega arith)))
        ∙ take-store_at n (n + 2) (store16 e (n + 2) 0 mem) (stored e 2 (complement c))
            (omega arith)
        ∙ take-store_at n (n + 2) mem (stored e 2 0) (omega arith) in
      (
        out,
        rw
            (
              let t : (get_or mem 9 0 == 1) ≡ true = ground arith in t,
              let t : leb (n + sizeof_icmp) len ≡ true = ground arith in t,
            )
            eq,
        message e (2 * k) n out (omega arith) (omega arith)
            (subst IsBytes (sym shape) (patched-IsBytes e (n + 2) (complement c) mem bytes))
            (omega arith) (ap (checksum16 e) same ∙ header) full,
      )

  -- For an ICMP packet with room for its header behind an IP header of at least 20 bytes, its length
  -- the declared one and below 2^31: the call succeeds, and the message alone sums to 0xFFFF, or
  -- all its words are zero, the stored checksum too.
  pub set_ipv4-icmp :
      (packet : List ℕ) (len : ℕ)
      → length packet ≡ len
      → IsBytes packet
      → 20 ≤ header_length packet
      → header_length packet + sizeof_icmp ≤ len
      → len ≡ p.ntohs (loaded p.system_endian (slice packet 2 2))
      → len < 2 ^ 31
      → get_or packet 9 0 ≡ 1
      → (out : List ℕ) × (set_ipv4 p sizeof_icmp packet len ≡ some (true, out))
        × ((checksum16 p.system_endian (drop (header_length packet) out) ≡ some (2 ^ 16 - 1))
            ⊎ (sum16 p.system_endian (drop (header_length packet) out) ≡ 0))
  set_ipv4-icmp packet len whole bytes h fits declared small icmp =
      let e : Endian = p.system_endian in
      let n : ℕ = header_length packet in
      let (c, eq, full) =
        set_ipv4-set_payload p q sizeof_icmp icmp_size packet len whole bytes h (omega arith)
          declared small in
      let filled : List ℕ = patched 10 (stored e 2 (complement c)) packet in
      let (out, done, summed) =
        icmp_payload (get_or packet 0 0 % 16) n len filled refl
          (length-patched e 10 (complement c) packet (omega arith) ∙ whole)
          (patched-IsBytes e 10 (complement c) packet bytes) small
          (get_or-take-append 9 10 packet (stored e 2 (complement c) ++ drop 12 packet)
              (omega arith) (omega arith)
            ∙ icmp)
          fits full in
      (out, eq ∙ done, summed)
