-- ===== src/Checksum/Order.antt =====
-- Checksum16 on systems of either byte order, and the last byte of data of odd length.
use libant.Common.{
  ℕ, zero, suc, ◌+◌, ◌-◌, ◌*◌, ◌/◌, ◌%◌, ◌^◌, ◌<◌, ◌≤◌, ◌≡◌, ◌≢◌, refl, sym, ap, ◌∙◌, arith,
}
use libant.Common.{length-append, List, [], ◌∷◌, ◌++◌, length, some}
use mathlib.Core.Option.{some-injective}
use libant.Endian.{Endian, stored}
use libant.Endian.Bytes.{IsBytes}
use libant.Checksum.{checksum16}
use libant.Checksum.Sum.{sum16, sum16-append}
use libant.Checksum.Verify.{finish-add, append-IsBytes}

-- 256 times the little-endian sum is the big-endian sum modulo 2^16 - 1.
sum16-swapped :
    (k : ℕ) (bytes : List ℕ)
    → length bytes ≡ 2 * k
    → (q : ℕ) × (256 * sum16 Endian.little_endian bytes
        ≡ sum16 Endian.big_endian bytes + (2 ^ 16 - 1) * q)
      × (sum16 Endian.little_endian bytes ≤ 256 * sum16 Endian.big_endian bytes)
sum16-swapped k [] l = (0, refl, omega arith)
sum16-swapped zero (a ∷ bytes) l = absurd (omega arith)
sum16-swapped (suc k) (a ∷ []) l = absurd (omega arith)
sum16-swapped (suc k) (a ∷ b ∷ bytes) l =
    let (q, eq, le) = sum16-swapped k bytes (omega arith) in (b + q, omega arith, omega arith)

swapped_same :
    (c d s t q : ℕ)
    → c % (2 ^ 16 - 1) ≡ s % (2 ^ 16 - 1)
    → d % (2 ^ 16 - 1) ≡ t % (2 ^ 16 - 1)
    → 256 * s ≡ t + (2 ^ 16 - 1) * q
    → d % (2 ^ 16 - 1) ≡ (256 * (c % 256) + c / 256) % (2 ^ 16 - 1)
swapped_same c d s t q ec ed eq = omega arith

determined :
    (d m s : ℕ)
    → d < 2 ^ 16
    → m < 2 ^ 16
    → d % (2 ^ 16 - 1) ≡ m % (2 ^ 16 - 1)
    → (0 < s → (0 < d) × (0 < m))
    → (s ≡ 0 → d ≡ m)
    → d ≡ m
determined d m zero hd hm e positive zeros = zeros refl
determined d m (suc s) hd hm e positive zeros = omega (arith, positive (omega arith))

swapped :
    (c d s t q : ℕ)
    → c < 2 ^ 16
    → d < 2 ^ 16
    → c % (2 ^ 16 - 1) ≡ s % (2 ^ 16 - 1)
    → d % (2 ^ 16 - 1) ≡ t % (2 ^ 16 - 1)
    → 256 * s ≡ t + (2 ^ 16 - 1) * q
    → c ≤ 2 ^ 16 * s
    → d ≤ 2 ^ 16 * t
    → s ≤ 256 * t
    → (0 < s → 0 < c)
    → (0 < t → 0 < d)
    → d ≡ 256 * (c % 256) + c / 256
swapped c d s t q hc hd ec ed eq lc ld lt pc pd =
    determined d (256 * (c % 256) + c / 256) s hd (omega arith) (swapped_same c d s t q ec ed eq)
      (λ h. (pd (omega arith), omega (arith, pc h))) (λ h. omega arith)

-- For at most 2^31 bytes, an even number, Checksum16 has a result on little-endian and on big-endian
-- systems, and it is the same two bytes in memory.
pub checksum16-byte_order :
    (k : ℕ) (bytes : List ℕ)
    → length bytes ≡ 2 * k
    → IsBytes bytes
    → length bytes ≤ 2 ^ 31
    → (c d : ℕ) × (checksum16 Endian.little_endian bytes ≡ some c)
      × (checksum16 Endian.big_endian bytes ≡ some d)
      × (stored Endian.little_endian 2 c ≡ stored Endian.big_endian 2 d)
unfolding checksum16
checksum16-byte_order k bytes l h room =
    let (c, eq, narrow, same, le, positive) =
      finish-add Endian.little_endian 0 bytes h (omega arith) in
    let (d, eq1, narrow1, same1, le1, positive1) =
      finish-add Endian.big_endian 0 bytes h (omega arith) in
    let (q, e, bound) = sum16-swapped k bytes l in
    let swap : d ≡ 256 * (c % 256) + c / 256 =
      swapped c d (sum16 Endian.little_endian bytes) (sum16 Endian.big_endian bytes) q narrow
        narrow1 (omega arith) (omega arith) e (omega arith) (omega arith) bound
        (λ h. positive (omega arith)) (λ h. positive1 (omega arith)) in
    (
      c,
      d,
      eq,
      eq1,
      rw (let low : c % 256 ≡ d / 256 % 256 = omega arith in low)
          (ap (λ b. d / 256 % 256 ∷ b ∷ []) (omega arith)),
    )

unique :
    (c d s : ℕ)
    → c < 2 ^ 16
    → d < 2 ^ 16
    → c % (2 ^ 16 - 1) ≡ s % (2 ^ 16 - 1)
    → d % (2 ^ 16 - 1) ≡ s % (2 ^ 16 - 1)
    → c ≤ 2 ^ 16 * s
    → d ≤ 2 ^ 16 * s
    → (0 < s → 0 < c)
    → (0 < s → 0 < d)
    → c ≡ d
unique c d s hc hd ec ed lc ld pc pd =
    determined c d s hc hd (ec ∙ sym ed) (λ h. (pc h, pd h)) (λ h. omega arith)

-- For at most 2^31 bytes, an odd number, Checksum16 on a little-endian system has the same result
-- as for the data with a zero byte appended.
checksum16-padded :
    (k : ℕ) (bytes : List ℕ) (b : ℕ)
    → length bytes ≡ 2 * k
    → IsBytes bytes
    → b < 256
    → length bytes < 2 ^ 31
    → (c : ℕ) × (checksum16 Endian.little_endian (bytes ++ (b ∷ [])) ≡ some c)
      × (checksum16 Endian.little_endian (bytes ++ (b ∷ 0 ∷ [])) ≡ some c)
unfolding checksum16
checksum16-padded k bytes b l h hb room =
    let e : Endian = Endian.little_endian in
    let (c, eq, narrow, same, le, positive) =
      finish-add e 0 (bytes ++ (b ∷ [])) (append-IsBytes bytes (b ∷ []) h (hb, tt))
        (omega (arith, length-append bytes (b ∷ []))) in
    let (d, eq1, narrow1, same1, le1, positive1) =
      finish-add e 0 (bytes ++ (b ∷ 0 ∷ []))
        (append-IsBytes bytes (b ∷ 0 ∷ []) h (hb, (omega arith, tt)))
        (omega (arith, length-append bytes (b ∷ 0 ∷ []))) in
    let sums : sum16 e (bytes ++ (b ∷ 0 ∷ [])) ≡ sum16 e (bytes ++ (b ∷ [])) =
      omega (arith, sum16-append e k bytes (b ∷ []) l, sum16-append e k bytes (b ∷ 0 ∷ []) l) in
    let agree : d ≡ c =
      unique d c (sum16 e (bytes ++ (b ∷ []))) narrow1 narrow (omega arith) (omega arith)
        (omega arith) (omega arith) (λ p. positive1 (omega arith)) (λ p. positive (omega arith)) in
    (c, eq, eq1 ∙ ap some agree)

-- On a big-endian system Checksum16 of one byte that is not zero differs from Checksum16 of that
-- byte with a zero byte appended.
pub checksum16-odd_big :
    (b : ℕ)
    → 0 < b
    → b < 256
    → checksum16 Endian.big_endian (b ∷ []) ≢ checksum16 Endian.big_endian (b ∷ 0 ∷ [])
unfolding checksum16
checksum16-odd_big b h hb equal =
    let e : Endian = Endian.big_endian in
    let (c, eq, narrow, same, le, positive) = finish-add e 0 (b ∷ []) (hb, tt) (omega arith) in
    let (d, eq1, narrow1, same1, le1, positive1) =
      finish-add e 0 (b ∷ 0 ∷ []) (hb, (omega arith, tt)) (omega arith) in
    let agree : c ≡ d = some-injective c d (sym eq ∙ equal ∙ eq1) in
    absurd (omega (arith, positive (omega arith), positive1 (omega arith)))
