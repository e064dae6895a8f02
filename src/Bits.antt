-- ===== src/Bits.antt =====
-- Bits of numbers and of arrays (include/libant/bits/bits.h). A number of a type with `w` bits is its
-- pattern; an array is the list of its elements. Bits are counted from 1; `none` is a failed assert.
pub mod Places
pub mod Independent
pub mod Value
mod Tests
use libant.Common.{
  ℕ, ◌+◌, ◌-◌, ◌*◌, ◌/◌, ◌%◌, ◌^◌, bit_and, bit_or, ltb, leb, ◌==◌, ◌&&◌, not, Bool, if◌then◌else◌,
}
use libant.Common.{List, length, set, get_or, Option, none, some}

-- `bit64_table` and `bit64_not_table`
unfoldable pub bit64_table : ℕ → ℕ
bit64_table i = 2 ^ i

unfoldable pub bit64_not_table : ℕ → ℕ
bit64_not_table i = 2 ^ 64 - 1 - 2 ^ i

module _ (w : ℕ) where
  -- `SetOn`, `SetOff` and `Test` on an array.
  unfoldable pub set_on : List ℕ → ℕ → Option (List ℕ)
  set_on arr pos =
      let i = (pos - 1) / w in
      if ltb 0 pos && leb pos (length arr * w)
      then some (set arr i (bit_or (get_or arr i 0) (bit64_table ((pos - 1) % w)) % 2 ^ w))
      else none

  unfoldable pub set_off : List ℕ → ℕ → Option (List ℕ)
  set_off arr pos =
      let i = (pos - 1) / w in
      if ltb 0 pos && leb pos (length arr * w)
      then some (set arr i (bit_and (get_or arr i 0) (bit64_not_table ((pos - 1) % w)) % 2 ^ w))
      else none

  unfoldable pub test : List ℕ → ℕ → Option Bool
  test arr pos =
      let i = (pos - 1) / w in
      if ltb 0 pos && leb pos (length arr * w)
      then some (not (bit_and (get_or arr i 0) (bit64_table ((pos - 1) % w)) == 0))
      else none

  -- The same on a number.
  unfoldable pub set_on_value : ℕ → ℕ → Option ℕ
  set_on_value val pos =
      if ltb 0 pos && leb pos w then some (bit_or val (bit64_table (pos - 1)) % 2 ^ w) else none

  unfoldable pub set_off_value : ℕ → ℕ → Option ℕ
  set_off_value val pos =
      if ltb 0 pos && leb pos w
      then some (bit_and val (bit64_not_table (pos - 1)) % 2 ^ w)
      else none

  unfoldable pub test_value : ℕ → ℕ → Option Bool
  test_value val pos =
      if ltb 0 pos && leb pos w then some (not (bit_and val (bit64_table (pos - 1)) == 0)) else none
