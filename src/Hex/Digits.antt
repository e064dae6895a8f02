-- ===== src/Hex/Digits.antt =====
-- A byte as two hex digits and back.
use libant.Common.{ℕ, ◌+◌, ◌-◌, ◌/◌, ◌%◌, ◌≤◌, ◌<◌, ◌≡◌, ◌⊎◌, inl, inr, ap, ◌∙◌, arith}
use libant.Common.{Bool, get_or, true, false, leb, ltb, if◌then◌else◌, ◌&&◌, ◌||◌, not}
use libant.Hex.{Chars, AreChars, hex_map, hex_map_lower, digit_value, hex_chars_to_byte}

-- The characters of the digit `d`, with the letters in one case.
abbrev IsDigitOf : ℕ → ℕ → ℕ → Type 0
IsDigitOf letter d c = ((d ≤ 9) × (c ≡ 48 + d)) ⊎ ((10 ≤ d) × (d ≤ 15) × (c ≡ letter + (d - 10)))

hex_map-IsDigitOf : (d : ℕ) → d < 16 → IsDigitOf 65 d (get_or hex_map d 0)
hex_map-IsDigitOf d h = ground arith

hex_map_lower-IsDigitOf : (d : ℕ) → d < 16 → IsDigitOf 97 d (get_or hex_map_lower d 0)
hex_map_lower-IsDigitOf d h = ground arith

-- The conditional of HexCharsToByte on an ASCII character, for either sign of `char`.
abbrev IsValue : ℕ → ℕ → Type 0
IsValue u d = ((65 ≤ u) × (d + 55 ≡ u)) ⊎ ((48 ≤ u) × (u < 65) × (d + 48 ≡ u))

conditional :
    (s : Bool) (u d : ℕ)
    → u < 128
    → IsValue u d
    → (if leb 65 u && (not s || ltb u 128) then u - 65 + 10 else ((u + 256 - 48) % 256)) ≡ d
conditional true u d small (inl (a, b)) = ground arith
conditional true u d small (inr (a, b, c)) = ground arith
conditional false u d small (inl (a, b)) = ground arith
conditional false u d small (inr (a, b, c)) = ground arith

module _ {l : Chars} (k : AreChars l) where
  at_upper : (c u d : ℕ) → l.toupper c ≡ u → u < 128 → IsValue u d → digit_value l c ≡ d
  unfolding digit_value
  at_upper c u d e small h =
      rw (e, let same : u % 256 ≡ u = omega arith in same) (conditional l.char_signed u d small h)

  upper_value : (d c : ℕ) → IsDigitOf 65 d c → digit_value l c ≡ d
  upper_value d c (inl (h, e)) =
      at_upper c (48 + d) d (ap l.toupper e ∙ k.upper_digit d h) (omega arith)
        (inr (omega arith, omega arith, omega arith))
  upper_value d c (inr (h, h', e)) =
      at_upper c (65 + (d - 10)) d (ap l.toupper e ∙ k.upper_letter (d - 10) (omega arith))
        (omega arith) (inl (omega arith, omega arith))

  lower_value : (d c : ℕ) → IsDigitOf 97 d c → digit_value l c ≡ d
  lower_value d c (inl (h, e)) =
      at_upper c (48 + d) d (ap l.toupper e ∙ k.upper_digit d h) (omega arith)
        (inr (omega arith, omega arith, omega arith))
  lower_value d c (inr (h, h', e)) =
      at_upper c (65 + (d - 10)) d (ap l.toupper e ∙ k.lower_letter (d - 10) (omega arith))
        (omega arith) (inl (omega arith, omega arith))

  from_digits :
      (a b v : ℕ)
      → v < 256
      → digit_value l a ≡ v / 16
      → digit_value l b ≡ v % 16
      → hex_chars_to_byte l a b ≡ v
  unfolding hex_chars_to_byte
  from_digits a b v h ea eb = omega (arith, ea, eb)

  -- Both maps give digits that stand for the byte.
  pub hex_chars_to_byte-upper :
      (v : ℕ)
      → v < 256
      → hex_chars_to_byte l (get_or hex_map (v / 16) 0) (get_or hex_map (v % 16) 0) ≡ v
  hex_chars_to_byte-upper v h =
      from_digits (get_or hex_map (v / 16) 0) (get_or hex_map (v % 16) 0) v h
        (upper_value (v / 16) _ (hex_map-IsDigitOf (v / 16) (omega arith)))
        (upper_value (v % 16) _ (hex_map-IsDigitOf (v % 16) (omega arith)))

  pub hex_chars_to_byte-lower :
      (v : ℕ)
      → v < 256
      → hex_chars_to_byte l (get_or hex_map_lower (v / 16) 0) (get_or hex_map_lower (v % 16) 0) ≡ v
  hex_chars_to_byte-lower v h =
      from_digits (get_or hex_map_lower (v / 16) 0) (get_or hex_map_lower (v % 16) 0) v h
        (lower_value (v / 16) _ (hex_map_lower-IsDigitOf (v / 16) (omega arith)))
        (lower_value (v % 16) _ (hex_map_lower-IsDigitOf (v % 16) (omega arith)))
