-- ===== src/Checksum.antt =====
-- The Internet checksum: include/libant/checksum/checksum.h and src/checksum/checksum.cpp. Words
-- are read in the byte order of the system, a parameter. The copy that AddChecksum makes of
-- unaligned data on some processors has the same bytes.
pub mod Fold
pub mod Sum
pub mod Verify
pub mod Order
mod Tests
use libant.Common.{ℕ, zero, suc, ◌+◌, ◌-◌, ◌*◌, ◌/◌, ◌%◌, ◌^◌, leb, bit_and, Option, none, some}
use libant.Common.{if◌then◌else◌, List, [], ◌∷◌}
use libant.Endian.{Endian, loaded}
use mathlib.Core.Option

module _ (e : Endian) where
  -- The last 16 and 8 bits of the data, if there are that many.
  unfoldable pub add_rest : ℕ → List ℕ → ℕ
  add_rest sum [] = sum
  add_rest sum (a ∷ []) = (sum + a) % 2 ^ 64
  add_rest sum (a ∷ b ∷ []) = (sum + loaded e (a ∷ b ∷ [])) % 2 ^ 64
  add_rest sum (a ∷ b ∷ c ∷ _) = ((sum + loaded e (a ∷ b ∷ [])) % 2 ^ 64 + c) % 2 ^ 64

  -- `AddChecksum`; the list is the rest of the data at `data32`.
  unfoldable pub add_checksum : ℕ → List ℕ → ℕ
  unfolding add_rest
  add_checksum sum (a ∷ b ∷ c ∷ d ∷ rest) =
      add_checksum ((sum + loaded e (a ∷ b ∷ c ∷ d ∷ [])) % 2 ^ 64) rest
  add_checksum sum rest = add_rest sum rest

-- `while (sum > 2^w - 1) sum = (sum >> w) + (sum & (2^w - 1));` on fuel, `none` when it runs out.
pub fold_loop : ℕ → ℕ → ℕ → Option ℕ
fold_loop w zero sum = none
fold_loop w (suc fuel) sum =
    let rest = fold_loop w fuel ((sum / 2 ^ w + bit_and sum (2 ^ w - 1)) % 2 ^ 64) in
    if leb sum (2 ^ w - 1) then some sum else rest

-- `FinishChecksum32` and `FinishChecksum16`; no loop makes more than two rounds.
unfoldable pub finish_checksum32 : ℕ → Option ℕ
finish_checksum32 sum = Option.map (λ s. s % 2 ^ 32) (fold_loop 32 3 sum)

unfoldable pub finish_checksum16 : ℕ → Option ℕ
finish_checksum16 sum =
    Option.map (λ s. s % 2 ^ 16) (Option.bind (fold_loop 32 3 sum) (fold_loop 16 3))

module _ (e : Endian) (bytes : List ℕ) where
  -- `Checksum32` and `Checksum16`
  unfoldable pub checksum32 : Option ℕ
  checksum32 = finish_checksum32 (add_checksum e 0 bytes)

  unfoldable pub checksum16 : Option ℕ
  checksum16 = finish_checksum16 (add_checksum e 0 bytes)
