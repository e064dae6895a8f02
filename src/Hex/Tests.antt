-- ===== src/Hex/Tests.antt =====
-- The witnesses of the properties of the hex encoding, with the `toupper` of the C locale.
use libant.Common.{ℕ, ◌-◌, leb, ◌&&◌, if◌then◌else◌, true, ◌≡◌, arith, List, [], ◌∷◌, some}
use libant.Hex.{Chars, AreChars, hex_map, hex_map_lower, hex_string_to_binary, to_hex_string}
use libant.Hex.Read.{hex_string_to_binary-to_hex_string}

abbrev c_locale : Chars
c_locale = record { toupper = λ c. if leb 97 c && leb c 122 then c - 32 else c; char_signed = true }

c_locale-AreChars : AreChars c_locale
c_locale-AreChars = record {
  upper_digit = λ d h. ground arith;
  upper_letter = λ d h. ground arith;
  lower_letter = λ d h. ground arith;
}

abbrev bytes : List ℕ
bytes = 171 ∷ 0 ∷ 255 ∷ []

abbrev memory : List ℕ
memory = 1 ∷ 2 ∷ 3 ∷ 4 ∷ 5 ∷ 6 ∷ 7 ∷ 8 ∷ []

hex_string_to_binary-to_hex_string_example :
    (hex_string_to_binary c_locale (to_hex_string hex_map bytes) ≡ some bytes)
    × (hex_string_to_binary c_locale (to_hex_string hex_map_lower bytes) ≡ some bytes)
hex_string_to_binary-to_hex_string_example =
    hex_string_to_binary-to_hex_string c_locale bytes c_locale-AreChars
      (omega arith, (omega arith, (omega arith, tt)))
