-- ===== src/Strings.antt =====
-- The string utilities (include/libant/utils/string_utils.h, src/utils/string_utils.cpp). A string is
-- the list of its bytes, and a pointer or a position in it the bytes from there to the end. The
-- system's functions on one character (`isspace`, `toupper`, `tolower`) are parameters.
pub mod Find
pub mod Split
pub mod Text
mod Tests
use libant.Common.{ℕ, zero, suc, ◌+◌, ◌-◌, leb, ◌==◌, ◌&&◌, Bool, true, false, not, if◌then◌else◌}
use libant.Common.{List, [], ◌∷◌, ◌++◌, length, set, take, drop, map, reverse, Option, none, some}
use mathlib.Core.Option as Option

-- `find_first_of` for one character, as the distance from the start.
unfoldable pub find_first_of : ℕ → List ℕ → Option ℕ
find_first_of c [] = none
find_first_of c (x ∷ xs) = if x == c then some 0 else Option.map suc (find_first_of c xs)

unfoldable pub starts_with : List ℕ → List ℕ → Bool
starts_with [] s = true
starts_with (t ∷ ts) [] = false
starts_with (t ∷ ts) (x ∷ xs) = let rest = starts_with ts xs in if t == x then rest else false

-- `strstr`, as the distance from the start.
unfoldable pub strstr : List ℕ → List ℕ → Option ℕ
strstr target [] = if starts_with target [] then some 0 else none
strstr target (x ∷ xs) =
    if starts_with target (x ∷ xs) then some 0 else Option.map suc (strstr target xs)

-- The loops of the two functions SplitString, on fuel: `find` finds the next separator. `none` is the
-- end of fuel, or a step to a place outside of the string.
unfoldable pub split_loop : (List ℕ → Option ℕ) → ℕ → ℕ → List ℕ → Option (List (List ℕ))
split_loop find sep_len zero pre_pos = none
split_loop find sep_len (suc n) pre_pos = elim (find pre_pos) [
  | none ↦ some (pre_pos ∷ [])
  | some cur ↦
      let rest = split_loop find sep_len n (drop (cur + sep_len) pre_pos) in
      if leb (cur + sep_len) (length pre_pos)
      then Option.map (λ ps. take cur pre_pos ∷ ps) rest
      else none
]

-- What `c_str` shows to a function on C strings.
unfoldable pub c_str : List ℕ → List ℕ
c_str [] = []
c_str (x ∷ xs) = let rest = c_str xs in if x == 0 then [] else x ∷ rest

-- `SplitString` on C strings, on strings, and for one character.
abbrev pub split_c_string : ℕ → List ℕ → List ℕ → ℕ → Option (List (List ℕ))
split_c_string fuel src sep sep_len = split_loop (strstr sep) sep_len fuel src

abbrev pub split_string : ℕ → List ℕ → List ℕ → Option (List (List ℕ))
split_string fuel src sep = split_c_string fuel (c_str src) (c_str sep) (length sep)

abbrev pub split_string_at : ℕ → List ℕ → ℕ → Option (List (List ℕ))
split_string_at fuel src sep = split_loop (find_first_of sep) 1 fuel src

-- The loop of `ToString`: each element and a blank behind it.
unfoldable pub append_elements {ℓ} : {T : Type ℓ} → (T → List ℕ) → List T → List ℕ → List ℕ
append_elements text [] s = s
append_elements text (v ∷ vs) s = append_elements text vs ((s ++ text v) ++ (32 ∷ []))

-- `ToString`, for elements whose text is `std::to_string`.
unfoldable pub to_string {ℓ} : {T : Type ℓ} → (T → List ℕ) → List T → List ℕ
to_string text v =
    let s = append_elements text v (91 ∷ []) in
    if leb 2 (length s) then set s (length s - 1) 93 else s ++ (93 ∷ [])

-- The text of an element that is a string, in quotes.
abbrev pub quoted : List ℕ → List ℕ
quoted v = (34 ∷ v) ++ (34 ∷ [])

-- `find_if` for the first character that is no space, and `erase` of what is before it.
unfoldable pub trim_string_left : (ℕ → Bool) → List ℕ → List ℕ
trim_string_left is_space [] = []
trim_string_left is_space (x ∷ xs) =
    let rest = trim_string_left is_space xs in if is_space x then rest else x ∷ xs

-- The same from the end.
abbrev pub trim_string_right : (ℕ → Bool) → List ℕ → List ℕ
trim_string_right is_space s = reverse (trim_string_left is_space (reverse s))

abbrev pub trim_string : (ℕ → Bool) → List ℕ → List ℕ
trim_string is_space s = trim_string_right is_space (trim_string_left is_space s)

-- `ToUpper` and `ToLower`, and their copies.
abbrev to_upper : (ℕ → ℕ) → List ℕ → List ℕ
to_upper toupper s = map toupper s

abbrev to_lower : (ℕ → ℕ) → List ℕ → List ℕ
to_lower tolower s = map tolower s
