-- ===== src/Bits/Tests.antt =====
-- The witness of the property of bits.
use libant.Common.{ℕ, ◌≡◌, arith, ◌==◌, if◌then◌else◌, true, false, List, [], ◌∷◌, length, some}
use libant.Bits.{set_on, set_off, test}
use libant.Bits.Independent.{test-set}

abbrev bytes : List ℕ
bytes = 129 ∷ 255 ∷ []

test-set_example :
    (on off : List ℕ) × (set_on 8 bytes 10 ≡ some on)
    × (length on ≡ length bytes)
    × (test 8 on 16 ≡ (if 16 == 10 then some true else test 8 bytes 16))
    × (set_off 8 bytes 10 ≡ some off)
    × (length off ≡ length bytes)
    × (test 8 off 16 ≡ (if 16 == 10 then some false else test 8 bytes 16))
test-set_example =
    test-set 8 bytes 10 16 (omega arith) (omega arith) (omega arith) (omega arith) (omega arith)
      (omega arith)
