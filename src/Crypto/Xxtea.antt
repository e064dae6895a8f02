-- ===== src/Crypto/Xxtea.antt =====
-- XXTeaCipher (xxtea.h, xxtea.cpp). Words are 32 bits wide; the key is its four words. A string is
-- read and written as words in the byte order of the system, which is a parameter.
pub mod Round
pub mod Block
pub mod Inverse
pub mod Cipher
pub mod Words
pub mod Text
mod Tests
use libant.Common.{ℕ, zero, suc, ◌+◌, ◌-◌, ◌*◌, ◌/◌, ◌%◌, ◌^◌, bit_and, bit_xor}
use libant.Common.{ltb, leb, ◌==◌, ◌&&◌, if◌then◌else◌, true, false}
use libant.Common.{List, [], ◌∷◌, ◌++◌, length, get_or, set, take, drop, replicate}
use libant.Common.{Option, none, some}
use libant.Endian.{Endian, stored, loaded}
use mathlib.Core.Option

abbrev pub delta : ℕ
delta = 0x9e3779b9

-- `x << k`
abbrev shl : ℕ → ℕ → ℕ
shl x k = x * 2 ^ k % 2 ^ 32

abbrev add32 : ℕ → ℕ → ℕ
add32 a b = (a + b) % 2 ^ 32

abbrev sub32 : ℕ → ℕ → ℕ
sub32 a b = (a + 2 ^ 32 - b) % 2 ^ 32

-- The macro MX.
pub mx : List ℕ → ℕ → ℕ → ℕ → ℕ → ℕ → ℕ
mx key sum e p y z =
    bit_xor (add32 (bit_xor (z / 2 ^ 5) (shl y 2)) (bit_xor (y / 2 ^ 3) (shl z 4)))
      (add32 (bit_xor sum y) (bit_xor (get_or key (bit_xor (bit_and p 3) e) 0) z))

-- `e = sum >> 2 & 3`
abbrev pub key_shift : ℕ → ℕ
key_shift sum = bit_and (sum / 2 ^ 2) 3

-- `n = len - 1`, which wraps round for 0.
abbrev pub last_index : ℕ → ℕ
last_index zero = 2 ^ 32 - 1
last_index (suc n) = n

-- A division; none by zero. The divisor `n + 1` of the code is `len`, also where `n` has wrapped.
abbrev pub divided : ℕ → ℕ → Option ℕ
divided a zero = none
divided a (suc b) = some (a / suc b)

module _ (key : List ℕ) where
  -- `z = data[p] += MX` and `y = data[p] -= MX`: the array and the new `data[p]`.
  pub add_mx : ℕ → ℕ → ℕ → ℕ → List ℕ → ℕ
  add_mx sum p y z d = add32 (get_or d p 0) (mx key sum (key_shift sum) p y z)

  pub sub_mx : ℕ → ℕ → ℕ → ℕ → List ℕ → ℕ
  sub_mx sum p y z d = sub32 (get_or d p 0) (mx key sum (key_shift sum) p y z)

  -- `for (p = 0; p < n; p++) { y = data[p + 1]; z = data[p] += MX; }` and the step for `n` behind
  -- it, with `left` rounds to go at `p`; the result is the array and `z`.
  pub encrypt_pass : ℕ → ℕ → ℕ → ℕ → List ℕ → List ℕ × ℕ
  encrypt_pass sum zero p z d = let v = add_mx sum p (get_or d 0 0) z d in (set d p v, v)
  encrypt_pass sum (suc left) p z d =
      let v = add_mx sum p (get_or d (suc p) 0) z d in encrypt_pass sum left (suc p) v (set d p v)

  -- `while (0 < q--) { … }`
  pub encrypt_rounds : ℕ → ℕ → ℕ → ℕ → List ℕ → List ℕ
  encrypt_rounds zero n sum z d = d
  encrypt_rounds (suc q) n sum z d =
      let sum' = add32 sum delta in
      let r = encrypt_pass sum' n 0 z d in encrypt_rounds q n sum' r.1 r.0

  -- `encrypt`; a division by zero has no result.
  pub encrypt : List ℕ → ℕ → Option (List ℕ)
  encrypt d len =
      let n = last_index len in
      if ltb 0 n
      then Option.map (λ k. encrypt_rounds (6 + k) n 0 (get_or d n 0) d) (divided 52 len)
      else some d

  -- `for (p = n; p > 0; p--) { z = data[p - 1]; y = data[p] -= MX; }` and the step for 0 behind it,
  -- at `p`; the result is the array and `y`.
  pub decrypt_pass : ℕ → ℕ → ℕ → ℕ → List ℕ → List ℕ × ℕ
  decrypt_pass sum n zero y d = let v = sub_mx sum 0 y (get_or d n 0) d in (set d 0 v, v)
  decrypt_pass sum n (suc p) y d =
      let v = sub_mx sum (suc p) y (get_or d p 0) d in decrypt_pass sum n p v (set d (suc p) v)

  -- `while (sum != 0) { … }`, on fuel; `none` when the fuel runs out.
  pub decrypt_rounds : ℕ → ℕ → ℕ → ℕ → List ℕ → Option (List ℕ)
  decrypt_rounds zero n sum y d = none
  decrypt_rounds (suc fuel) n sum y d =
      let r = decrypt_pass sum n n y d in
      let rest = decrypt_rounds fuel n (sub32 sum delta) r.1 r.0 in
      if sum == 0 then some d else rest

  -- `decrypt`; a division by zero has no result. There are at most 32 rounds.
  pub decrypt : List ℕ → ℕ → Option (List ℕ)
  decrypt d len =
      let n = last_index len in
      if ltb 0 n
      then Option.bind (divided 52 len)
          (λ k. decrypt_rounds 33 n ((6 + k) * delta % 2 ^ 32) (get_or d 0 0) d)
      else some d
