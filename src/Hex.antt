-- ===== src/Hex.antt =====
-- The hex encoding of include/libant/encoding/hex/hex.h. Characters are their codes, 0 to 255.
-- `toupper` of the system and the sign of `char` are parameters.
pub mod Digits
pub mod Write
pub mod Read
mod Tests
use libant.Common.{
  ℕ, zero, suc, ◌+◌, ◌-◌, ◌*◌, ◌/◌, ◌%◌, ◌≤◌, ◌≡◌, leb, ltb, ◌==◌, ◌&&◌, ◌||◌, not, Bool,
}
use libant.Common.{
  if◌then◌else◌, List, [], ◌∷◌, length, get_or, replicate, store_at, Option, none, some,
}

pub record Chars : Type 0 where
  pub toupper : ℕ → ℕ
  pub char_signed : Bool

-- What the documentation of `toupper` says of the hex digits.
pub record AreChars (l : Chars) : Type 0 where
  pub upper_digit : (d : ℕ) → d ≤ 9 → l.toupper (48 + d) ≡ 48 + d
  pub upper_letter : (d : ℕ) → d ≤ 5 → l.toupper (65 + d) ≡ 65 + d
  pub lower_letter : (d : ℕ) → d ≤ 5 → l.toupper (97 + d) ≡ 65 + d

-- `__hexMap__` and `__hexMapLower__`
abbrev pub hex_map : List ℕ
hex_map = 48 ∷ 49 ∷ 50 ∷ 51 ∷ 52 ∷ 53 ∷ 54 ∷ 55 ∷ 56 ∷ 57 ∷ 65 ∷ 66 ∷ 67 ∷ 68 ∷ 69 ∷ 70 ∷ []

abbrev pub hex_map_lower : List ℕ
hex_map_lower =
    48 ∷ 49 ∷ 50 ∷ 51 ∷ 52 ∷ 53 ∷ 54 ∷ 55 ∷ 56 ∷ 57 ∷ 97 ∷ 98 ∷ 99 ∷ 100 ∷ 101 ∷ 102 ∷ []

-- `ByteToHexString` and `ByteToLowerHexString`, by their map.
abbrev pub byte_to_hex_string : List ℕ → ℕ → List ℕ
byte_to_hex_string digits val = get_or digits (val / 16) 0 ∷ get_or digits (val % 16) 0 ∷ []

module _ (l : Chars) where
  -- `c >= 'A' ? (c - 'A') + 10 : (c - '0')` behind `c = toupper(c)`, as a byte.
  unfoldable pub digit_value : ℕ → ℕ
  digit_value c =
      let u = l.toupper c % 256 in
      if leb 65 u && (not l.char_signed || ltb u 128) then u - 65 + 10 else ((u + 256 - 48) % 256)

  -- `HexCharsToByte`
  unfoldable pub hex_chars_to_byte : ℕ → ℕ → ℕ
  hex_chars_to_byte first second = (digit_value first * 16 % 256 + digit_value second) % 256

  -- The loop of `HexStringToBinary` at index `i`; the list is the rest of the source.
  pub read_hex : ℕ → List ℕ → List ℕ → List ℕ
  read_hex i [] dest = dest
  read_hex i (a ∷ []) dest = dest
  read_hex i (a ∷ b ∷ source) dest =
      read_hex (i + 2) source (store_at dest (i / 2) (hex_chars_to_byte a b ∷ []))

  -- `HexStringToBinary` into the memory `dst`; `none` is the failed assert.
  unfoldable pub hex_string_into : List ℕ → List ℕ → Option (List ℕ)
  hex_string_into src dst = if length src % 2 == 0 then some (read_hex 0 src dst) else none

  -- `HexStringToBinary` that returns a string.
  unfoldable pub hex_string_to_binary : List ℕ → Option (List ℕ)
  hex_string_to_binary src = hex_string_into src (replicate (length src / 2) 0)

module _ (digits : List ℕ) where
  -- The loop of `ToHexString` and `ToLowerHexString` at index `i`.
  pub write_hex : ℕ → List ℕ → List ℕ → List ℕ
  write_hex i [] dest = dest
  write_hex i (b ∷ source) dest =
      write_hex (i + 1) source (store_at dest (i * 2) (byte_to_hex_string digits b))

  -- `ToHexString` and `ToLowerHexString` into the memory `dst`, with a final zero.
  unfoldable pub to_hex_into : List ℕ → List ℕ → List ℕ
  to_hex_into src dst = store_at (write_hex 0 src dst) (length src * 2) (0 ∷ [])

  -- `ToHexString` and `ToLowerHexString` that return a string.
  unfoldable pub to_hex_string : List ℕ → List ℕ
  to_hex_string src = write_hex 0 src (replicate (length src * 2) 0)
