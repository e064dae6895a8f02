-- ===== src/Bits/Places.antt =====
-- The binary digits of the masks and of the results.
use native.Mathlib.Nat.{pow-suc, one-le-pow}
use libant.Common.{ℕ, zero, suc, ◌-◌, ◌*◌, ◌/◌, ◌%◌, ◌^◌, ◌≤◌, ◌<◌, ◌≡◌, ◌≢◌, refl, ap, ◌∙◌, arith}
use libant.Common.{
  bit_and, bit_or, and_shifted, and_low, or_place, and_place, div-pow-suc, ◌==◌, not,
}

place_suc : (x y j : ℕ) → x / 2 ≡ y → x / 2 ^ suc j % 2 ≡ y / 2 ^ j % 2
place_suc x y j eq = omega (arith, div-pow-suc x j, ap (λ (t : ℕ). t / 2 ^ j % 2) eq)

zero_place : (j : ℕ) → 0 / 2 ^ j % 2 ≡ 0
zero_place zero = omega arith
zero_place (suc j) = place_suc 0 0 j (omega arith) ∙ zero_place j

half_power : (k : ℕ) → 2 ^ suc k / 2 ≡ 2 ^ k
half_power k = omega (arith, pow-suc 2 k)

power_place_self : (k : ℕ) → 2 ^ k / 2 ^ k % 2 ≡ 1
power_place_self zero = omega arith
power_place_self (suc k) = place_suc (2 ^ suc k) (2 ^ k) k (half_power k) ∙ power_place_self k

power_place_ne : (k j : ℕ) → k ≢ j → 2 ^ k / 2 ^ j % 2 ≡ 0
power_place_ne zero zero ne = absurd (ne refl)
power_place_ne zero (suc j) ne = place_suc 1 0 j (omega arith) ∙ zero_place j
power_place_ne (suc k) zero ne = omega (arith, pow-suc 2 k)
power_place_ne (suc k) (suc j) ne =
    place_suc (2 ^ suc k) (2 ^ k) j (half_power k) ∙ power_place_ne k j (λ e. ne (ap suc e))

ones_place : (w j : ℕ) → j < w → (2 ^ w - 1) / 2 ^ j % 2 ≡ 1
ones_place zero j lt = absurd (omega arith)
ones_place (suc w) zero lt = omega (arith, pow-suc 2 w, one-le-pow w 2)
ones_place (suc w) (suc j) lt =
    place_suc (2 ^ suc w - 1) (2 ^ w - 1) j (omega (arith, pow-suc 2 w))
    ∙ ones_place w j (omega arith)

power_lt : (k w : ℕ) → k < w → 2 ^ k < 2 ^ w
power_lt k zero lt = absurd (omega arith)
power_lt zero (suc w) lt = omega (arith, pow-suc 2 w, one-le-pow w 2)
power_lt (suc k) (suc w) lt = omega (arith, pow-suc 2 w, pow-suc 2 k, power_lt k w (omega arith))

mask_place_self : (w k : ℕ) → k < w → (2 ^ w - 1 - 2 ^ k) / 2 ^ k % 2 ≡ 0
mask_place_self zero k lt = absurd (omega arith)
mask_place_self (suc w) zero lt = omega (arith, pow-suc 2 w, one-le-pow w 2)
mask_place_self (suc w) (suc k) lt =
    place_suc (2 ^ suc w - 1 - 2 ^ suc k) (2 ^ w - 1 - 2 ^ k) k
      (omega (arith, pow-suc 2 w, pow-suc 2 k))
    ∙ mask_place_self w k (omega arith)

mask_place_ne : (w k j : ℕ) → k < w → j < w → k ≢ j → (2 ^ w - 1 - 2 ^ k) / 2 ^ j % 2 ≡ 1
mask_place_ne zero k j lt ltj ne = absurd (omega arith)
mask_place_ne (suc w) zero zero lt ltj ne = absurd (ne refl)
mask_place_ne (suc w) zero (suc j) lt ltj ne =
    place_suc (2 ^ suc w - 1 - 2 ^ 0) (2 ^ w - 1) j (omega (arith, pow-suc 2 w))
    ∙ ones_place w j (omega arith)
mask_place_ne (suc w) (suc k) zero lt ltj ne =
    omega (arith, pow-suc 2 w, pow-suc 2 k, power_lt k w (omega arith))
mask_place_ne (suc w) (suc k) (suc j) lt ltj ne =
    place_suc (2 ^ suc w - 1 - 2 ^ suc k) (2 ^ w - 1 - 2 ^ k) j
      (omega (arith, pow-suc 2 w, pow-suc 2 k))
    ∙ mask_place_ne w k j (omega arith) (omega arith) (λ e. ne (ap suc e))

-- What is cut to `w` bits keeps its low digits.
cut_place : (w j x : ℕ) → j < w → x % 2 ^ w / 2 ^ j % 2 ≡ x / 2 ^ j % 2
cut_place w j x lt = omega (
  arith,
  ap (λ (t : ℕ). t / 2 ^ j % 2) (and_low w x),
  and_place j x (2 ^ w - 1),
  ones_place w j lt,
)

pub on_self : (w k x : ℕ) → k < w → bit_or x (2 ^ k) % 2 ^ w / 2 ^ k % 2 ≡ 1
on_self w k x lt =
    omega (arith, cut_place w k (bit_or x (2 ^ k)) lt, or_place k x (2 ^ k), power_place_self k)

pub on_ne : (w k j x : ℕ) → j < w → k ≢ j → bit_or x (2 ^ k) % 2 ^ w / 2 ^ j % 2 ≡ x / 2 ^ j % 2
on_ne w k j x lt ne =
    omega (arith, cut_place w j (bit_or x (2 ^ k)) lt, or_place j x (2 ^ k), power_place_ne k j ne)

pub off_self : (w k x : ℕ) → w ≤ 64 → k < w → bit_and x (2 ^ 64 - 1 - 2 ^ k) % 2 ^ w / 2 ^ k % 2 ≡ 0
off_self w k x small lt = omega (
  arith,
  cut_place w k (bit_and x (2 ^ 64 - 1 - 2 ^ k)) lt,
  and_place k x (2 ^ 64 - 1 - 2 ^ k),
  mask_place_self 64 k (omega arith),
)

pub off_ne :
    (w k j x : ℕ)
    → w ≤ 64
    → k < w
    → j < w
    → k ≢ j
    → bit_and x (2 ^ 64 - 1 - 2 ^ k) % 2 ^ w / 2 ^ j % 2 ≡ x / 2 ^ j % 2
off_ne w k j x small lt ltj ne = omega (
  arith,
  cut_place w j (bit_and x (2 ^ 64 - 1 - 2 ^ k)) ltj,
  and_place j x (2 ^ 64 - 1 - 2 ^ k),
  mask_place_ne 64 k j (omega arith) (omega arith) ne,
)

-- A test for the bit `k` reads the digit at this place.
pub tested : (k x : ℕ) → not (bit_and x (2 ^ k) == 0) ≡ (x / 2 ^ k % 2 == 1)
tested k x =
    let low : bit_and (x / 2 ^ k) 1 ≡ x / 2 ^ k % 2 = and_low 1 (x / 2 ^ k) in
    let masked : bit_and x (2 ^ k) ≡ x / 2 ^ k % 2 * 2 ^ k =
      ap (bit_and x) (let e : 2 ^ k ≡ 1 * 2 ^ k = omega arith in e)
      ∙ and_shifted k 1 x
      ∙ ap (λ t. t * 2 ^ k) low in
    digit (x / 2 ^ k % 2) (omega arith) masked
  where
    digit :
        (d : ℕ) → d < 2 → bit_and x (2 ^ k) ≡ d * 2 ^ k → not (bit_and x (2 ^ k) == 0) ≡ (d == 1)
    digit zero lt eq = let e : bit_and x (2 ^ k) ≡ 0 = omega arith in ground arith
    digit (suc zero) lt eq =
        let some_bit = one-le-pow k 2 in
        let e : bit_and x (2 ^ k) ≡ 2 ^ k = omega arith in ground arith
    digit (suc (suc d)) lt eq = absurd (omega arith)
