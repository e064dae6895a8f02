-- ===== src/Common/Bits.antt =====
-- What the digits of `&`, `|` and `^` give for masks, for fields that do not overlap, for a single
-- bit, and for a key that is applied twice.
mod Digit
use Digit.{and_digit, or_digit, xor_digit_lem}
use Prim.Native.Nat.{ℕ, zero, suc, ◌+◌, ◌-◌, ◌*◌, ◌/◌, ◌%◌, ◌^◌, ◌≤◌, ◌<◌, min, max}
use Prim.Native.Nat.{bit_and, bit_or, bit_xor}
use mathlib.Core.Path.{◌≡◌, refl, ap}
use native.Mathlib.Nat.{pow-suc, one-le-pow, div-div-eq-div-mul, mul_comm, div-add-mod}
use native.Mathlib.Decide.{dec_lt}
use native.Mathlib.Omega.{arith}

and_zero_upto : (n a : ℕ) → a ≤ n → bit_and a 0 ≡ 0
and_zero_upto n zero h = refl
and_zero_upto zero (suc a) h = absurd (omega arith)
and_zero_upto (suc n) (suc a) h =
    omega (arith, and_digit (suc a) 0, and_zero_upto n (suc a / 2) (omega arith))

pub and-zero : (a : ℕ) → bit_and a 0 ≡ 0
and-zero a = and_zero_upto a a (omega arith)

or_zero_upto : (n a : ℕ) → a ≤ n → bit_or a 0 ≡ a
or_zero_upto n zero h = refl
or_zero_upto zero (suc a) h = absurd (omega arith)
or_zero_upto (suc n) (suc a) h =
    omega (arith, or_digit (suc a) 0, or_zero_upto n (suc a / 2) (omega arith))

pub or-zero : (a : ℕ) → bit_or a 0 ≡ a
or-zero a = or_zero_upto a a (omega arith)

pub or-zero_left : (a : ℕ) → bit_or 0 a ≡ a
or-zero_left a = Digit.zero-or a

-- `2 ^ (k + 1)` times a number, in the form that `omega` reads.
pub mul-pow-suc : (q k : ℕ) → q * 2 ^ suc k ≡ 2 * (q * 2 ^ k)
mul-pow-suc q k = omega (arith, ap (λ (t : ℕ). q * t) (pow-suc 2 k))

pub div-pow-suc : (a k : ℕ) → a / 2 ^ suc k ≡ a / 2 / 2 ^ k
div-pow-suc a k = rw (pow-suc 2 k, mul_comm (2 ^ k) 2, ← div-div-eq-div-mul a 2 (2 ^ k))

-- `low | (q << k)` is a sum if `low` has at most `k` bits.
pub or_above : (k q low : ℕ) → low < 2 ^ k → bit_or low (q * 2 ^ k) ≡ low + q * 2 ^ k
or_above zero q low h = ground (arith, or-zero_left (q * 1))
or_above (suc k) q low h = ground (
  arith,
  or_digit low (q * 2 ^ suc k),
  mul-pow-suc q k,
  pow-suc 2 k,
  or_above k q (low / 2) (omega (arith, pow-suc 2 k)),
)

-- `(q << k) | low`, likewise.
pub or_below : (k q low : ℕ) → low < 2 ^ k → bit_or (q * 2 ^ k) low ≡ q * 2 ^ k + low
or_below zero q low h = ground (arith, or-zero (q * 1))
or_below (suc k) q low h = ground (
  arith,
  or_digit (q * 2 ^ suc k) low,
  mul-pow-suc q k,
  pow-suc 2 k,
  or_below k q (low / 2) (omega (arith, pow-suc 2 k)),
)

-- `a & (m << k)` is the field of `a` from bit `k` on, masked by `m`.
pub and_shifted : (k m a : ℕ) → bit_and a (m * 2 ^ k) ≡ bit_and (a / 2 ^ k) m * 2 ^ k
and_shifted zero m a = ground arith
and_shifted (suc k) m a = ground (
  arith,
  and_digit a (m * 2 ^ suc k),
  mul-pow-suc m k,
  mul-pow-suc (bit_and (a / 2 / 2 ^ k) m) k,
  div-pow-suc a k,
  and_shifted k m (a / 2),
)

mod-pow-suc : (a k : ℕ) → a % 2 ^ suc k ≡ a / 2 % 2 ^ k * 2 + a % 2
mod-pow-suc a k = omega (
  arith,
  div-add-mod a (2 ^ suc k),
  div-add-mod (a / 2) (2 ^ k),
  div-pow-suc a k,
  ap (λ (t : ℕ). 2 ^ suc k * t) (div-pow-suc a k),
  mul-pow-suc (a / 2 / 2 ^ k) k,
)

half_mask : (k : ℕ) → (2 ^ suc k - 1) / 2 ≡ 2 ^ k - 1
half_mask k = omega (arith, pow-suc 2 k, one-le-pow k 2)

or_half : (a b : ℕ) → bit_or a b / 2 ≡ bit_or (a / 2) (b / 2)
or_half a b = omega (arith, or_digit a b)

and_half : (a b : ℕ) → bit_and a b / 2 ≡ bit_and (a / 2) (b / 2)
and_half a b = omega (arith, and_digit a b)

xor_half : (a b : ℕ) → bit_xor a b / 2 ≡ bit_xor (a / 2) (b / 2)
xor_half a b = omega (arith, xor_digit_lem a b)

-- `a & (2^k - 1)` keeps the low `k` bits.
pub and_low : (k a : ℕ) → bit_and a (2 ^ k - 1) ≡ a % 2 ^ k
and_low zero a = ground (arith, and-zero a)
and_low (suc k) a = omega (
  arith,
  and_digit a (2 ^ suc k - 1),
  pow-suc 2 k,
  one-le-pow k 2,
  mod-pow-suc a k,
  ap (bit_and (a / 2)) (half_mask k),
  and_low k (a / 2),
)

-- The digits of the results, at any place.
pub or_place : (k a b : ℕ) → bit_or a b / 2 ^ k % 2 ≡ max (a / 2 ^ k % 2) (b / 2 ^ k % 2)
or_place zero a b = omega (arith, or_digit a b)
or_place (suc k) a b = omega (
  arith,
  div-pow-suc (bit_or a b) k,
  div-pow-suc a k,
  div-pow-suc b k,
  ap (λ (t : ℕ). t / 2 ^ k % 2) (or_half a b),
  or_place k (a / 2) (b / 2),
)

pub and_place : (k a b : ℕ) → bit_and a b / 2 ^ k % 2 ≡ min (a / 2 ^ k % 2) (b / 2 ^ k % 2)
and_place zero a b = omega (arith, and_digit a b)
and_place (suc k) a b = omega (
  arith,
  div-pow-suc (bit_and a b) k,
  div-pow-suc a k,
  div-pow-suc b k,
  ap (λ (t : ℕ). t / 2 ^ k % 2) (and_half a b),
  and_place k (a / 2) (b / 2),
)

xor_twice_upto : (n a b : ℕ) → a + b ≤ n → bit_xor (bit_xor a b) b ≡ a
xor_twice_upto zero a b h =
    rw (let e : a ≡ 0 = omega arith in e, let e : b ≡ 0 = omega arith in e) refl
xor_twice_upto (suc n) a b h = elim (dec_lt 0 (a + b)) [
  | yes p ↦ omega (
    arith,
    xor_digit_lem (bit_xor a b) b,
    xor_digit_lem a b,
    ap (λ (t : ℕ). bit_xor t (b / 2)) (xor_half a b),
    xor_twice_upto n (a / 2) (b / 2) (omega arith),
  )
  | no p ↦ xor_twice_upto n a b (omega arith)
]

-- A key that is applied twice is gone.
pub xor_twice : (a b : ℕ) → bit_xor (bit_xor a b) b ≡ a
xor_twice a b = xor_twice_upto (a + b) a b (omega arith)

pub xor-lt : (k a b : ℕ) → a < 2 ^ k → b < 2 ^ k → bit_xor a b < 2 ^ k
xor-lt zero a b ha hb =
    rw (let e : a ≡ 0 = omega arith in e, let e : b ≡ 0 = omega arith in e) (omega arith)
xor-lt (suc k) a b ha hb = omega (
  arith,
  pow-suc 2 k,
  xor_digit_lem a b,
  xor-lt k (a / 2) (b / 2) (omega (arith, pow-suc 2 k)) (omega (arith, pow-suc 2 k)),
)
