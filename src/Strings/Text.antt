-- ===== src/Strings/Text.antt =====
-- The text of a vector, and trimming.
use mathlib.Core.Path.{subst}
use mathlib.Core.List.{reverse-append, reverse-reverse, reverse-cons}
use libant.Common.{ℕ, zero, suc, ◌-◌, ◌≤◌, ◌≡◌, refl, sym, ap, ◌∙◌, arith, leb, Bool, Bool-cases}
use libant.Common.{
  true, inl, inr, List, [], ◌∷◌, ◌++◌, length, length-append, set, map, reverse, append_assoc,
}
use libant.Strings.{append_elements, to_string, trim_string_left, trim_string_right, trim_string}
use libant.Strings.Split.{join}

append_elements_lem {ℓ} :
    {T : Type ℓ} (text : T → List ℕ) (v : T) (vs : List T) (s : List ℕ)
    → append_elements text (v ∷ vs) s ≡ (s ++ join (32 ∷ []) (map text (v ∷ vs))) ++ (32 ∷ [])
unfolding append_elements join
append_elements_lem text v [] s = refl
append_elements_lem text v (w ∷ vs) s =
    append_elements_lem text w vs ((s ++ text v) ++ (32 ∷ []))
    ∙ ap (λ l. l ++ (32 ∷ []))
        (append_assoc (s ++ text v) (32 ∷ []) (join (32 ∷ []) (map text (w ∷ vs)))
          ∙ append_assoc s (text v) (32 ∷ join (32 ∷ []) (map text (w ∷ vs))))

set_last : (a : List ℕ) (x y n : ℕ) → n ≡ length a → set (a ++ (x ∷ [])) n y ≡ a ++ (y ∷ [])
set_last [] x y zero len = refl
set_last [] x y (suc n) len = absurd (omega arith)
set_last (b ∷ a) x y zero len = absurd (omega arith)
set_last (b ∷ a) x y (suc n) len = ap (λ l. b ∷ l) (set_last a x y n (omega arith))

to_string-nil {ℓ} :
    {T : Type ℓ} (text : T → List ℕ) → to_string text [] ≡ (91 ∷ join (32 ∷ []) []) ++ (93 ∷ [])
unfolding to_string append_elements join
to_string-nil text = refl

-- ToString gives, for every vector, the texts of the elements with a blank between two of them, in
-- brackets.
pub to_string-join {ℓ} :
    {T : Type ℓ} (text : T → List ℕ) (vs : List T)
    → to_string text vs ≡ (91 ∷ join (32 ∷ []) (map text vs)) ++ (93 ∷ [])
unfolding to_string
to_string-join text [] = to_string-nil text
to_string-join text (v ∷ vs) =
    let body = join (32 ∷ []) (map text (v ∷ vs)) in
    let all = append_elements_lem text v vs (91 ∷ []) in
    let len = length-append (91 ∷ body) (32 ∷ []) in
    let some_text : leb 2 (length ((91 ∷ body) ++ (32 ∷ []))) ≡ true = ground arith in
    rw (all, some_text)
      (set_last (91 ∷ body) 32 93 (length ((91 ∷ body) ++ (32 ∷ [])) - 1) (omega arith))

module _ (is_space : ℕ → Bool) where
  unfoldable pub AllSpace : List ℕ → Type 0
  AllSpace [] = Unit
  AllSpace (x ∷ xs) = (is_space x ≡ true) × AllSpace xs

  AllSpace-append : (a b : List ℕ) → AllSpace a → AllSpace b → AllSpace (a ++ b)
  unfolding AllSpace
  AllSpace-append [] b ha hb = hb
  AllSpace-append (x ∷ a) b (hx, ha) hb = (hx, AllSpace-append a b ha hb)

  AllSpace-reverse : (a : List ℕ) → AllSpace a → AllSpace (reverse a)
  unfolding AllSpace
  AllSpace-reverse [] h = tt
  AllSpace-reverse (x ∷ a) (hx, ha) =
      subst AllSpace (sym (reverse-cons x a))
        (AllSpace-append (reverse a) (x ∷ []) (AllSpace-reverse a ha) (hx, tt))

  trim_left-split :
      (s : List ℕ) → (a : List ℕ) × (s ≡ a ++ trim_string_left is_space s) × AllSpace a
  unfolding trim_string_left AllSpace
  trim_left-split [] = ([], refl, tt)
  trim_left-split (x ∷ xs) = elim (Bool-cases (is_space x)) [
    | inl blank ↦
        let (a, eq, all) = trim_left-split xs in rw blank (x ∷ a, ap (λ l. x ∷ l) eq, (blank, all))
    | inr other ↦ rw other ([], refl, tt)
  ]

  trim_left-again :
      (s : List ℕ)
      → trim_string_left is_space (trim_string_left is_space s) ≡ trim_string_left is_space s
  unfolding trim_string_left
  trim_left-again [] = refl
  trim_left-again (x ∷ xs) = elim (Bool-cases (is_space x)) [
    | inl blank ↦ rw blank (trim_left-again xs)
    | inr other ↦ rw (other, other) refl
  ]

  trim_right-split :
      (s : List ℕ) → (b : List ℕ) × (s ≡ trim_string_right is_space s ++ b) × AllSpace b
  trim_right-split s =
      let (a, eq, all) = trim_left-split (reverse s) in
      (
        reverse a,
        sym (reverse-reverse s)
            ∙ ap reverse eq
            ∙ reverse-append a (trim_string_left is_space (reverse s)),
        AllSpace-reverse a all,
      )

  trim_right-again :
      (s : List ℕ)
      → trim_string_right is_space (trim_string_right is_space s) ≡ trim_string_right is_space s
  trim_right-again s =
      ap (λ l. reverse (trim_string_left is_space l))
        (reverse-reverse (trim_string_left is_space (reverse s)))
      ∙ ap reverse (trim_left-again (reverse s))

  trim_left-length : (s : List ℕ) → length (trim_string_left is_space s) ≤ length s
  trim_left-length s =
      let (a, eq, all) = trim_left-split s in
      let len = ap length eq ∙ length-append a (trim_string_left is_space s) in omega arith

  -- What a string without blanks at its start begins with has none at its start either.
  trim_left-prefix :
      (t b : List ℕ) → trim_string_left is_space (t ++ b) ≡ t ++ b → trim_string_left is_space t ≡ t
  unfolding trim_string_left
  trim_left-prefix [] b eq = refl
  trim_left-prefix (x ∷ t) b eq = elim (Bool-cases (is_space x)) [
    | inr other ↦ rw other refl
    | inl blank ↦
        let shorter = trim_left-length (t ++ b) in
        let longer = ap length (rw blank at eq) in absurd (omega arith)
  ]

  -- For every notion of a blank: TrimString takes a run of blanks from each end of a string, and what
  -- it leaves has a blank at neither end, so to trim it at either end again changes nothing.
  pub trim_string_lem :
      (s : List ℕ)
      → (a b : List ℕ) × (s ≡ a ++ (trim_string is_space s ++ b))
        × AllSpace a
        × AllSpace b
        × (trim_string_left is_space (trim_string is_space s) ≡ trim_string is_space s)
        × (trim_string_right is_space (trim_string is_space s) ≡ trim_string is_space s)
  trim_string_lem s =
      let u = trim_string_left is_space s in
      let (a, eq, blank) = trim_left-split s in
      let (b, cut, blank_end) = trim_right-split u in
      (
        a,
        b,
        eq ∙ ap (λ l. a ++ l) cut,
        blank,
        blank_end,
        trim_left-prefix (trim_string_right is_space u) b
            (subst (λ l. trim_string_left is_space l ≡ l) cut (trim_left-again s)),
        trim_right-again u,
      )
