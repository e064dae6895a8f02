-- ===== src/Strings/Tests.antt =====
-- The witnesses of the properties of the string utilities.
use libant.Common.{
  ℕ, ◌≡◌, arith, refl, ◌==◌, Bool, List, [], ◌∷◌, ◌++◌, length, map, some, ◌<◌, none,
}
use libant.Strings.{
  find_first_of, strstr, split_c_string, split_string, split_string_at, to_string, quoted,
}
use libant.Strings.{trim_string, trim_string_left, trim_string_right}
use libant.Strings.Split.{
  join, AllClear, split_string-join, split_string_at-join, split_c_string-empty,
}
use libant.Strings.Text.{to_string-join, AllSpace, trim_string_lem}

-- "a--b"
abbrev text : List ℕ
text = 97 ∷ 45 ∷ 45 ∷ 98 ∷ []

abbrev dashes : List ℕ
dashes = 45 ∷ 45 ∷ []

text_no_nul : find_first_of 0 text ≡ none
unfolding find_first_of
text_no_nul = refl

dashes_no_nul : find_first_of 0 dashes ≡ none
unfolding find_first_of
dashes_no_nul = refl

split_string-join_example :
    (p : List ℕ) × (ps : List (List ℕ)) × (split_string 5 text dashes ≡ some (p ∷ ps))
    × (join dashes (p ∷ ps) ≡ text)
    × AllClear (strstr dashes) (p ∷ ps)
split_string-join_example =
    split_string-join 5 text 45 (45 ∷ []) text_no_nul dashes_no_nul (omega arith)

pieces-AllClear : AllClear (find_first_of 44) ((97 ∷ []) ∷ [] ∷ [])
unfolding AllClear find_first_of
pieces-AllClear = (refl, (refl, tt))

short : length {A = ℕ} (join (44 ∷ []) ((97 ∷ []) ∷ [] ∷ [])) < 3
unfolding join
short = omega arith

split_string_at-join_example :
    split_string_at 3 (join (44 ∷ []) ((97 ∷ []) ∷ [] ∷ [])) 44 ≡ some ((97 ∷ []) ∷ [] ∷ [])
split_string_at-join_example = split_string_at-join 3 44 (97 ∷ []) ([] ∷ []) pieces-AllClear short

split_c_string-empty_example : split_c_string 100 text [] 0 ≡ none
split_c_string-empty_example = split_c_string-empty 100 text

to_string-join_example :
    to_string quoted (text ∷ [] ∷ [])
    ≡ (91 ∷ join (32 ∷ []) (map quoted (text ∷ [] ∷ []))) ++ (93 ∷ [])
to_string-join_example = to_string-join quoted (text ∷ [] ∷ [])

abbrev is_blank : ℕ → Bool
is_blank x = x == 32

abbrev padded : List ℕ
padded = 32 ∷ 97 ∷ 32 ∷ 98 ∷ 32 ∷ 32 ∷ []

trim_string_lem_example :
    (a b : List ℕ) × (padded ≡ a ++ (trim_string is_blank padded ++ b))
    × AllSpace is_blank a
    × AllSpace is_blank b
    × (trim_string_left is_blank (trim_string is_blank padded) ≡ trim_string is_blank padded)
    × (trim_string_right is_blank (trim_string is_blank padded) ≡ trim_string is_blank padded)
trim_string_lem_example = trim_string_lem is_blank padded
