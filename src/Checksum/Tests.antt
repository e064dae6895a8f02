-- ===== src/Checksum/Tests.antt =====
-- The witnesses of the properties of the checksum.
use libant.Common.{ℕ, List, [], ◌∷◌, ◌++◌, ◌≡◌, ◌≢◌, ◌-◌, ◌^◌, refl, arith, some}
use libant.Endian.{Endian, stored}
use libant.Endian.Bytes.{IsBytes}
use libant.Checksum.{checksum16}
use libant.Checksum.Verify.{checksum16-stored}
use libant.Checksum.Order.{checksum16-byte_order, checksum16-odd_big}

abbrev header : List ℕ
header = 69 ∷ 0 ∷ 0 ∷ 115 ∷ []

header-IsBytes : IsBytes header
header-IsBytes = (omega arith, (omega arith, (omega arith, (omega arith, tt))))

checksum16-stored_example :
    (c : ℕ) × (checksum16 Endian.big_endian (header ++ (0 ∷ 0 ∷ header)) ≡ some c)
    × (checksum16 Endian.big_endian
          (header ++ (stored Endian.big_endian 2 (2 ^ 16 - 1 - c) ++ header))
        ≡ some (2 ^ 16 - 1))
checksum16-stored_example =
    checksum16-stored Endian.big_endian 2 header header refl header-IsBytes header-IsBytes
      (omega arith)

checksum16-byte_order_example :
    (c d : ℕ) × (checksum16 Endian.little_endian header ≡ some c)
    × (checksum16 Endian.big_endian header ≡ some d)
    × (stored Endian.little_endian 2 c ≡ stored Endian.big_endian 2 d)
checksum16-byte_order_example = checksum16-byte_order 2 header refl header-IsBytes (omega arith)

checksum16-odd_big_example :
    checksum16 Endian.big_endian (7 ∷ []) ≢ checksum16 Endian.big_endian (7 ∷ 0 ∷ [])
checksum16-odd_big_example = checksum16-odd_big 7 (omega arith) (omega arith)
