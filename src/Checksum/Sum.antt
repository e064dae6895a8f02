-- ===== src/Checksum/Sum.antt =====
-- What AddChecksum adds up: the 16-bit words of the data, modulo 2^16 - 1.
use libant.Common.{ℕ, zero, suc, ◌+◌, ◌-◌, ◌*◌, ◌%◌, ◌^◌, ◌<◌, ◌≤◌, ◌≡◌, arith}
use mathlib.Core.Path.{subst}
use libant.Common.{List, [], ◌∷◌, ◌++◌, length}
use libant.Endian.{Endian, loaded}
use libant.Endian.Bytes.{IsBytes}
use libant.Checksum.{add_rest, add_checksum}

-- The sum of the 16-bit words, the last byte of data of odd length for itself.
abbrev pub sum16 : Endian → List ℕ → ℕ
sum16 e [] = 0
sum16 e (a ∷ []) = a
sum16 e (a ∷ b ∷ bs) = loaded e (a ∷ b ∷ []) + sum16 e bs

-- A 64-bit sum that stands for the words' sum: congruent to it and zero only together with it.
abbrev pub IsAdded : ℕ → ℕ → Type 0
IsAdded words s =
    (s < 2 ^ 64) × (s % (2 ^ 16 - 1) ≡ words % (2 ^ 16 - 1)) × (words ≤ s) × (s ≤ 2 ^ 16 * words)

halves :
    (e : Endian) (a b c d : ℕ)
    → IsBytes (a ∷ b ∷ c ∷ d ∷ [])
    → (q : ℕ) × (loaded e (a ∷ b ∷ c ∷ d ∷ [])
        ≡ loaded e (a ∷ b ∷ []) + loaded e (c ∷ d ∷ []) + (2 ^ 16 - 1) * q)
      × (q ≤ loaded e (a ∷ b ∷ []) + loaded e (c ∷ d ∷ []))
      × (loaded e (a ∷ b ∷ c ∷ d ∷ []) < 2 ^ 32)
halves Endian.little_endian a b c d h =
    (c + 256 * d, omega arith, omega arith, omega (arith, h.0, h.1.0, h.1.1.0, h.1.1.1.0))
halves Endian.big_endian a b c d h =
    (b + 256 * a, omega arith, omega arith, omega (arith, h.0, h.1.0, h.1.1.0, h.1.1.1.0))

half_lt : (e : Endian) (a b : ℕ) → IsBytes (a ∷ b ∷ []) → loaded e (a ∷ b ∷ []) < 2 ^ 16
half_lt Endian.little_endian a b h = omega (arith, h.0, h.1.0)
half_lt Endian.big_endian a b h = omega (arith, h.0, h.1.0)

IsAdded-add :
    (words s word q l : ℕ)
    → IsAdded words s
    → l ≡ word + (2 ^ 16 - 1) * q
    → q ≤ word
    → s + l < 2 ^ 64
    → IsAdded (words + word) ((s + l) % 2 ^ 64)
IsAdded-add words s word q l (a, b, c, d) e k room =
    (omega arith, omega arith, omega arith, omega arith)

-- With room for every word the 64-bit sum does not wrap.
pub add_checksum-IsAdded :
    (e : Endian) (bytes : List ℕ) (sum words : ℕ)
    → IsBytes bytes
    → IsAdded words sum
    → sum + 2 ^ 32 * length bytes < 2 ^ 64
    → IsAdded (words + sum16 e bytes) (add_checksum e sum bytes)
unfolding add_rest add_checksum
add_checksum-IsAdded e [] sum words h (a, b, c, d) room = (a, omega arith, omega arith, omega arith)
add_checksum-IsAdded e (x ∷ []) sum words h added room =
    IsAdded-add words sum x 0 x added (omega arith) (omega arith) (omega (arith, h.0))
add_checksum-IsAdded e (x ∷ y ∷ []) sum words h added room =
    let l : ℕ = loaded e (x ∷ y ∷ []) in
    let small : l < 2 ^ 16 = half_lt e x y h in
    subst (λ t. IsAdded (words + t) ((sum + l) % 2 ^ 64)) (let eq : l ≡ l + 0 = omega arith in eq)
      (IsAdded-add words sum l 0 l added (omega arith) (omega arith) (omega arith))
add_checksum-IsAdded e (x ∷ y ∷ z ∷ []) sum words h added room =
    let l : ℕ = loaded e (x ∷ y ∷ []) in
    let small : l < 2 ^ 16 = half_lt e x y (h.0, (h.1.0, tt)) in
    subst (λ t. IsAdded t (((sum + l) % 2 ^ 64 + z) % 2 ^ 64))
      (let eq : words + l + z ≡ words + (l + z) = omega arith in eq)
      (IsAdded-add (words + l) ((sum + l) % 2 ^ 64) z 0 z
        (IsAdded-add words sum l 0 l added (omega arith) (omega arith) (omega arith)) (omega arith)
        (omega arith) (omega (arith, h.1.1.0)))
add_checksum-IsAdded e (x ∷ y ∷ z ∷ w ∷ rest) sum words h added room =
    let l : ℕ = loaded e (x ∷ y ∷ []) in
    let m : ℕ = loaded e (z ∷ w ∷ []) in
    let n : ℕ = loaded e (x ∷ y ∷ z ∷ w ∷ []) in
    let (q, eq, k, small) = halves e x y z w (h.0, (h.1.0, (h.1.1.0, (h.1.1.1.0, tt)))) in
    subst (λ t. IsAdded t (add_checksum e ((sum + n) % 2 ^ 64) rest))
      (let eq : words + (l + m) + sum16 e rest ≡ words + (l + (m + sum16 e rest)) = omega arith in
        eq)
      (add_checksum-IsAdded e rest ((sum + n) % 2 ^ 64) (words + (l + m)) h.1.1.1.1
        (IsAdded-add words sum (l + m) q n added eq k (omega arith)) (omega arith))

pub sum16-append :
    (e : Endian) (k : ℕ) (front back : List ℕ)
    → length front ≡ 2 * k
    → sum16 e (front ++ back) ≡ sum16 e front + sum16 e back
sum16-append e k [] back l = omega arith
sum16-append e zero (a ∷ front) back l = absurd (omega arith)
sum16-append e (suc k) (a ∷ []) back l = absurd (omega arith)
sum16-append e (suc k) (a ∷ b ∷ front) back l =
    omega (arith, sum16-append e k front back (omega arith))
